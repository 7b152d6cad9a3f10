-- ===== src/Platform.antt =====
-- What the program takes from outside its sources, on the x64 target of its project files: Boost.Asio's
-- byte order functions and reads, JsonCpp, and the contents of new memory.
use cppmulti_thread_server_b.Prelude.{
  ℕ, ◌+◌, ◌*◌, ◌/◌, ◌%◌, ◌^◌, ◌<◌, ◌≡◌, List, ◌++◌, Option, none, some, length, ℤ,
}

pub record Platform : Type 0 where
  -- boost::asio::detail::socket_ops: on a little-endian host both swap the two bytes.
  pub host_to_network_short : ℕ → ℕ
  pub network_to_host_short : ℕ → ℕ
  pub host_to_network_swaps :
      (x : ℕ) → x < 2 ^ 16 → host_to_network_short x ≡ x % 256 * 256 + x / 256
  pub network_to_host_swaps :
      (x : ℕ) → x < 2 ^ 16 → network_to_host_short x ≡ x % 256 * 256 + x / 256
  -- The bytes that `new char[n]` happens to hold.
  pub fresh_bytes : ℕ → List ℕ
  pub length-fresh_bytes : (n : ℕ) → length (fresh_bytes n) ≡ n
  -- `boost::asio::async_read` of n bytes from what the peer sends until it closes: the n bytes and
  -- what is left; `none` is the exception at the end of the stream.
  pub async_read : ℕ → List ℕ → Option (List ℕ × List ℕ)
  pub async_read_full : (bs rest : List ℕ) → async_read (length bs) (bs ++ rest) ≡ some (bs, rest)
  pub async_read_short : (n : ℕ) (bs : List ℕ) → length bs < n → async_read n bs ≡ none
  -- JsonCpp, on the text that a message holds: `root["id"].asInt()` and `root["data"].asString()`
  -- after `parse`, where `none` is an exception, and `toStyledString()` with a new "data".
  pub id_as_int : List ℕ → Option ℤ
  pub data_as_string : List ℕ → Option (List ℕ)
  pub styled_with_data : List ℕ → List ℕ → List ℕ

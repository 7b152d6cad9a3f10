-- ===== src/Echo.antt =====
-- Asio协程/main.cpp: the echo coroutine, and TestClient/main.cpp, which sends it a line.
pub mod Line
use cppmulti_thread_server_b.Prelude.{
  ℕ, zero, suc, ◌+◌, ◌-◌, ◌≤◌, ◌≡◌, refl, ◌∙◌, List, [], ◌∷◌, ◌++◌, Option, none, some, length,
  take, drop, leb, arith, if◌then◌else◌, append-nil,
}
use cppmulti_thread_server_b.Memory.{Outcome, done, throws, fault, ◌>>=◌, read_bytes, write_bytes}
use cppmulti_thread_server_b.Memory.Laws.{read_bytes-append, write_bytes-append, length-write_bytes}
use cppmulti_thread_server_b.Platform.{Platform}

-- `char data[1024]` of `echo`, and `MAX_LENGHT` of the client.
abbrev pub max_lenght : ℕ
max_lenght = 1024

-- `echo`, for the pieces that its reads get, with writes that succeed, until a read throws and the
-- coroutine ends: what it writes for each. `array` is the array `data`.
unfoldable pub echo : List ℕ → List (List ℕ) → Outcome (List (List ℕ))
echo array [] = done []
echo array (bs ∷ reads) = do
  array' ← write_bytes 0 bs array
  out ← read_bytes 0 (length bs) array'
  rest ← echo array' reads
  done (out ∷ rest)

-- The characters of an array before its first zero.
unfoldable pub c_string : List ℕ → Outcome (List ℕ)
c_string [] = fault
c_string (zero ∷ bs) = done []
c_string (suc b ∷ bs) = c_string bs >>= λ t. done (suc b ∷ t)

-- `boost::asio::buffer` of an array is never longer than the array.
abbrev pub buffer_size : ℕ → ℕ
buffer_size n = if leb n max_lenght then n else max_lenght

module _ (p : Platform) where
  -- The request of the client: `getline` stores at most 1023 characters of the line, and a zero.
  unfoldable pub request : List ℕ → Outcome (List ℕ)
  request line = do
    a ← write_bytes 0 (take (max_lenght - 1) line ++ 0 ∷ []) (p.fresh_bytes max_lenght)
    s ← c_string a
    read_bytes 0 (buffer_size (length s)) a

  -- What the client prints for a stream of answers.
  unfoldable pub reply : ℕ → List ℕ → Outcome (List ℕ)
  reply request_length stream = elim (p.async_read (buffer_size request_length) stream) [
    | none ↦ throws
    | some (msg, rest) ↦ do
      b ← write_bytes 0 msg (p.fresh_bytes max_lenght)
      b' ← write_bytes request_length (0 ∷ []) b
      c_string b'
  ]

-- Each piece fits into the array.
abbrev pub AreShort : List (List ℕ) → Type 0
AreShort [] = Unit {0}
AreShort (bs ∷ reads) = (length bs ≤ max_lenght) × AreShort reads

-- The coroutine writes back what it reads: for pieces of at most 1024 bytes, one write for each read,
-- in order and with the same bytes, and no copy leaves the array.
pub echo-same :
    (array : List ℕ) (reads : List (List ℕ))
    → length array ≡ max_lenght
    → AreShort reads
    → echo array reads ≡ done reads
unfolding echo
echo-same array [] l v = refl
echo-same array (bs ∷ reads) l v =
    let array' = bs ++ drop (length bs) array in
    let filled : write_bytes 0 bs array ≡ done array' =
      write_bytes-append [] bs array refl (omega (arith, l, v.0)) in
    rw filled (
      rw (read_bytes-append [] bs (drop (length bs) array) {at = 0} {n = length bs} refl refl)
        (rw (echo-same array' reads (length-write_bytes 0 bs array filled ∙ l) v.1) refl))

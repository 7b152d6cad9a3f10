-- ===== src/Tests.antt =====
-- Concrete runs: a platform and sessions on which the theorems' hypotheses hold.
mod Sessions
mod Exchanges
mod Pools
mod Threads
mod Servers
mod Systems
use cppmulti_thread_server_b.Prelude.{
  false, ℕ, zero, suc, ◌+◌, ◌*◌, ◌/◌, ◌%◌, ◌<◌, ◌≤◌, ◌≡◌, refl, ap, List, [], ◌∷◌, ◌++◌, Bool,
  Option, none, some, ℤ, pos, length, take, drop, replicate, length-replicate, leb, if◌then◌else◌,
  arith,
}
use cppmulti_thread_server_b.Platform.{Platform}
use cppmulti_thread_server_b.MsgNode.Head.{IsHead}
use cppmulti_thread_server_b.MsgNode.Text.{fresh_node}
use cppmulti_thread_server_b.Session.{CSession}
use cppmulti_thread_server_b.Session.Read.Waiting.{HasHead}
use cppmulti_thread_server_b.Session.Fresh.{fresh_session, fresh_session-HasHead}
use cppmulti_thread_server_b.Corotine

-- Reads from a stream that ends.
abbrev pub read_exactly : ℕ → List ℕ → Option (List ℕ × List ℕ)
read_exactly zero bs = some ([], bs)
read_exactly (suc n) [] = none
read_exactly (suc n) (b ∷ bs) = elim (read_exactly n bs) [
  | none ↦ none
  | some (got, rest) ↦ some (b ∷ got, rest)
]

pub read_exactly-append :
    (bs rest : List ℕ) → read_exactly (length bs) (bs ++ rest) ≡ some (bs, rest)
read_exactly-append [] rest = refl
read_exactly-append (b ∷ bs) rest = rw (read_exactly-append bs rest) refl

pub read_exactly-short : (n : ℕ) (bs : List ℕ) → length bs < n → read_exactly n bs ≡ none
read_exactly-short zero bs h = absurd (omega arith)
read_exactly-short (suc n) [] h = refl
read_exactly-short (suc n) (b ∷ bs) h = rw (read_exactly-short n bs (omega arith)) refl

-- Texts that begin with `{` are JSON; "data" is what follows.
abbrev pub platform : Platform
platform = record {
  host_to_network_short = λ x. x % 256 * 256 + x / 256;
  network_to_host_short = λ x. x % 256 * 256 + x / 256;
  host_to_network_swaps = λ x h. refl;
  network_to_host_swaps = λ x h. refl;
  fresh_bytes = λ n. replicate n 205;
  length-fresh_bytes = λ n. length-replicate n 205;
  async_read = read_exactly;
  async_read_full = read_exactly-append;
  async_read_short = read_exactly-short;
  id_as_int = λ t. elim t [ [] ↦ none | b ∷ bs ↦ some (pos 1001) ];
  data_as_string = λ t. elim t [ [] ↦ none | b ∷ bs ↦ some bs ];
  styled_with_data = λ t d. 123 ∷ d;
}

abbrev pub hello : List ℕ
hello = 123 ∷ 104 ∷ 105 ∷ []

abbrev pub bye : List ℕ
bye = 123 ∷ 98 ∷ 121 ∷ []

-- Sessions as their constructors make them.
abbrev pub corotine : Corotine.CSession
corotine = record {
  uuid = "c";
  b_close = false;
  send_que = [];
  recv_msg_node = none;
  recv_head_node = fresh_node platform 4;
}

pub corotine-IsHead : IsHead corotine.recv_head_node
corotine-IsHead = record { at_start = refl; four = refl; room = refl }

abbrev pub session : CSession
session = fresh_session platform "s"

pub session-HasHead : HasHead [] session
session-HasHead = fresh_session-HasHead platform "s"

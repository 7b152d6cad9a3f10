-- ===== src/ThreadPool/Session.antt =====
-- AsioThreadPool/CSession.{h,cpp}: the session of the callback servers, of which some completion handlers
-- pass through `_strand`.
use cppmulti_thread_server_b.Prelude.{
  ℕ, ◌+◌, List, [], ◌∷◌, ◌++◌, Bool, false, ℤ, map, length, drop, ◌≡◌, refl, ap,
}
use cppmulti_thread_server_b.Memory.{Outcome, done, throws, fault, out_of_fuel, ◌>>=◌}
use cppmulti_thread_server_b.Platform.{Platform}
use cppmulti_thread_server_b.Effect.{
  Effect, start_read, start_read_head, start_read_msg, start_write, post, close_socket,
  clear_session,
}
use cppmulti_thread_server_b.Session.{CSession}
use cppmulti_thread_server_b.Session.Read
use cppmulti_thread_server_b.Session.ReadHead
use cppmulti_thread_server_b.Session.Write

-- A call of a handler: an operation whose completion handler is bound to `_strand`, or any other call.
pub data Call : Type 0 where
  bound plain : Effect → Call

abbrev pub effects : List Call → List Effect
effects [] = []
effects (bound e ∷ cs) = e ∷ effects cs
effects (plain e ∷ cs) = e ∷ effects cs

-- `bind_executor(_strand, …)` around the handler of each operation.
unfoldable pub bind_executor : Effect → Call
bind_executor start_read = bound start_read
bind_executor (start_read_head n) = bound (start_read_head n)
bind_executor (start_read_msg n) = bound (start_read_msg n)
bind_executor (start_write b) = bound (start_write b)
bind_executor (post r) = plain (post r)
bind_executor close_socket = plain close_socket
bind_executor (clear_session u) = plain (clear_session u)

-- A body of the shared class, with its operations bound to the strand, or not.
unfoldable pub on_strand : Outcome (CSession × List Effect) → Outcome (CSession × List Call)
on_strand o = o >>= λ t. done (t.0, map bind_executor t.1)

unfoldable pub off_strand : Outcome (CSession × List Effect) → Outcome (CSession × List Call)
off_strand o = o >>= λ t. done (t.0, map plain t.1)

-- `Start`
unfoldable pub start : CSession → Outcome (CSession × List Call)
start s = on_strand (done (Read.start s))

-- `Send(char* msg, int max_len, short msg_id)`
unfoldable pub send_chars : Platform → CSession → List ℕ → ℤ → ℤ → Outcome (CSession × List Call)
send_chars p s msg max_len msg_id = on_strand (Write.send_chars p s msg max_len msg_id)

-- `Send(std::string msg, short msg_id)`
unfoldable pub send : Platform → CSession → List ℕ → ℤ → Outcome (CSession × List Call)
send p s msg msg_id = on_strand (Write.send p s msg msg_id)

-- `HandleWrite`, with `ec` true for an error. The next write is started with `std::bind` alone.
unfoldable pub handle_write : CSession → Bool → Outcome (CSession × List Call)
handle_write s ec = off_strand (Write.handle_write s ec)

-- `HandleRead`, with `ec` true for an error. Each of its five reads is bound.
unfoldable pub handle_read : Platform → ℕ → CSession → Bool → ℕ → Outcome (CSession × List Call)
handle_read p fuel s ec bytes_transferred =
    on_strand (Read.handle_read p fuel s ec bytes_transferred)

-- `HandleReadHead` and `HeadleReadMsg`, which bind nothing.
unfoldable pub handle_read_head : Platform → CSession → Bool → ℕ → Outcome (CSession × List Call)
handle_read_head p s ec bytes_transferred =
    off_strand (ReadHead.handle_read_head p s ec bytes_transferred)

unfoldable pub headle_read_msg : CSession → Bool → Outcome (CSession × List Call)
headle_read_msg s ec = off_strand (ReadHead.headle_read_msg s ec)

-- A completed `async_read_some`: Asio has put the bytes that came in at the start of `_data`.
unfoldable pub on_bytes : Platform → CSession → List ℕ → Outcome (CSession × List Call)
on_bytes p s bs =
    handle_read p (length bs + 2) (record s { recv_data = bs ++ drop (length bs) s.recv_data })
      false (length bs)

effects-bind_executor : (es : List Effect) → effects (map bind_executor es) ≡ es
unfolding bind_executor
effects-bind_executor [] = refl
effects-bind_executor (start_read ∷ es) = ap (λ t. start_read ∷ t) (effects-bind_executor es)
effects-bind_executor (start_read_head n ∷ es) =
    ap (λ t. start_read_head n ∷ t) (effects-bind_executor es)
effects-bind_executor (start_read_msg n ∷ es) =
    ap (λ t. start_read_msg n ∷ t) (effects-bind_executor es)
effects-bind_executor (start_write b ∷ es) = ap (λ t. start_write b ∷ t) (effects-bind_executor es)
effects-bind_executor (post r ∷ es) = ap (λ t. post r ∷ t) (effects-bind_executor es)
effects-bind_executor (close_socket ∷ es) = ap (λ t. close_socket ∷ t) (effects-bind_executor es)
effects-bind_executor (clear_session u ∷ es) =
    ap (λ t. clear_session u ∷ t) (effects-bind_executor es)

effects-plain : (es : List Effect) → effects (map plain es) ≡ es
effects-plain [] = refl
effects-plain (e ∷ es) = ap (λ t. e ∷ t) (effects-plain es)

-- A body without the strand.
abbrev pub forget : CSession × List Call → Outcome (CSession × List Effect)
forget (s, cs) = done (s, effects cs)

pub forget-on_strand : (o : Outcome (CSession × List Effect)) → (on_strand o >>= forget) ≡ o
unfolding on_strand
forget-on_strand (done (s, es)) = ap (λ t. done (s, t)) (effects-bind_executor es)
forget-on_strand throws = refl
forget-on_strand fault = refl
forget-on_strand out_of_fuel = refl

pub forget-off_strand : (o : Outcome (CSession × List Effect)) → (off_strand o >>= forget) ≡ o
unfolding off_strand
forget-off_strand (done (s, es)) = ap (λ t. done (s, t)) (effects-plain es)
forget-off_strand throws = refl
forget-off_strand fault = refl
forget-off_strand out_of_fuel = refl

-- ===== src/Tests/Sessions.antt =====
-- Sessions, the client and the logic system on concrete packets.
use cppmulti_thread_server_b.Prelude.{
  ◌≡◌, ◌≢◌, refl, [], ◌∷◌, ◌++◌, true, false, pos, negsuc, arith,
}
use cppmulti_thread_server_b.Memory.{done, throws, fault, out_of_fuel}
use cppmulti_thread_server_b.MsgNode.Frame.{head, frame, frames}
use cppmulti_thread_server_b.Effect.{post, start_read, close_socket, clear_session}
use cppmulti_thread_server_b.Session.{CSession}
use cppmulti_thread_server_b.Session.Read.{on_bytes, handle_read, print_json}
use cppmulti_thread_server_b.Session.Read.Waiting.{HasHead}
use cppmulti_thread_server_b.Session.Read.Packet.{delivered, IsPacket}
use cppmulti_thread_server_b.Session.Read.Packets.{posts_as, on_bytes-alike}
use cppmulti_thread_server_b.Session.Read.Parted.{on_reads-parted}
use cppmulti_thread_server_b.Session.Read.Split.{on_bytes-split}
use cppmulti_thread_server_b.Session.Read.Reads.{on_reads, apart, posts_apart, on_reads-apart}
use cppmulti_thread_server_b.Session.Read.Negative.{on_bytes-refused}
use cppmulti_thread_server_b.Corotine.Start.Negative.{start-refused}
use cppmulti_thread_server_b.Session.Read.Fuel.{handle_read_ends}
use cppmulti_thread_server_b.Session.Write.Promise.{session_outbox}
use cppmulti_thread_server_b.Session.Write.Order.{send-InOrder}
use cppmulti_thread_server_b.Outbox.Line.{Line, sends, written, run, InOrder}
use cppmulti_thread_server_b.Corotine
use cppmulti_thread_server_b.Corotine.Start.{start}
use cppmulti_thread_server_b.Corotine.Start.Frames.{posts, start-frames}
use cppmulti_thread_server_b.Corotine.Start.Ends.{Ends, start-Ends}
use cppmulti_thread_server_b.Corotine.Write.Promise.{corotine_outbox}
use cppmulti_thread_server_b.Corotine.Write.Order.{send_chars-InOrder}
use cppmulti_thread_server_b.Tests.{
  platform, hello, bye, corotine, corotine-IsHead, session, session-HasHead,
}

hello-IsPacket : IsPacket platform (pos 1001) hello
unfolding print_json
hello-IsPacket = record {
  is_short = omega arith;
  id_fits = refl;
  len_fits = omega arith;
  readable = (_, refl);
}

bye-IsPacket : IsPacket platform (pos 1001) bye
unfolding print_json
bye-IsPacket = record {
  is_short = omega arith;
  id_fits = refl;
  len_fits = omega arith;
  readable = (_, refl);
}

start-frames_example :
    (s' : Corotine.CSession) × (start platform 3 corotine
        (frames ((pos 1001, hello) ∷ (pos 1002, bye) ∷ []) ++ 3 ∷ [])
      ≡ done (
        s',
        posts ((pos 1001, hello) ∷ (pos 1002, bye) ∷ []) ++ (close_socket ∷ clear_session "c" ∷ []),
      ))
    × (s'.b_close ≡ true)
start-frames_example =
    start-frames platform ((pos 1001, hello) ∷ (pos 1002, bye) ∷ []) (3 ∷ []) 3 corotine
      (
        record { is_short = omega arith; id_fits = refl; len_fits = omega arith },
        (record { is_short = omega arith; id_fits = refl; len_fits = omega arith }, tt),
      )
      (omega arith) (omega arith) corotine-IsHead refl

start-Ends_example :
    Ends platform "c" (start platform 9 corotine (3 ∷ 233 ∷ 0 ∷ 3 ∷ 123 ∷ 104 ∷ 105 ∷ 7 ∷ []))
start-Ends_example =
    start-Ends platform 9 corotine (3 ∷ 233 ∷ 0 ∷ 3 ∷ 123 ∷ 104 ∷ 105 ∷ 7 ∷ []) (omega arith)
      corotine-IsHead refl
      (
        omega arith,
        omega arith,
        (
          omega arith,
          omega arith,
          (
            omega arith,
            omega arith,
            (
              omega arith,
              omega arith,
              (
                omega arith,
                omega arith,
                (omega arith, omega arith, (omega arith, omega arith, omega arith)),
              ),
            ),
          ),
        ),
      )

-- The head comes in one byte first, then two, and the fourth with the text.
on_reads-parted_example :
    (s' : CSession) × (on_reads platform 1 session ((3 ∷ []) ∷ (233 ∷ 0 ∷ []) ∷ (3 ∷ hello) ∷ [])
      ≡ done (s', start_read ∷ start_read ∷ post (delivered (pos 1001) hello) ∷ start_read ∷ []))
    × HasHead [] s'
on_reads-parted_example =
    on_reads-parted platform ((3 ∷ []) ∷ (233 ∷ 0 ∷ []) ∷ []) 0 session (3 ∷ []) hello (pos 1001)
      session-HasHead hello-IsPacket (omega arith, omega arith, (omega arith, omega arith, tt)) refl
      (omega arith) (omega arith)

on_bytes-alike_example :
    (s' : CSession) × (on_bytes platform 2 session
        (frames ((pos 1001, hello) ∷ (pos 1002, bye) ∷ []))
      ≡ done
          (s', posts_as (pos 1001) ((pos 1001, hello) ∷ (pos 1002, bye) ∷ []) ++ start_read ∷ []))
    × HasHead [] s'
on_bytes-alike_example =
    on_bytes-alike platform ((pos 1002, bye) ∷ []) 2 session (pos 1001) hello session-HasHead
      (refl, hello-IsPacket, (refl, bye-IsPacket, tt)) (omega arith) (omega arith)

on_bytes-split_example :
    (s₁ s₂ : CSession) × (on_bytes platform 1 session (head (pos 1001) (pos 3) ++ 123 ∷ 104 ∷ [])
      ≡ done (s₁, start_read ∷ []))
    × (on_bytes platform 1 s₁ (105 ∷ []) ≡ done (s₂, start_read ∷ []))
    × (on_bytes platform 1 s₂ (frame (pos 1002) bye) ≡ fault)
on_bytes-split_example =
    on_bytes-split platform 0 session (123 ∷ 104 ∷ []) (105 ∷ []) (frame (pos 1002) bye) (pos 1001)
      session-HasHead (omega arith) refl (omega arith) (omega arith) (omega arith) (omega arith)

handle_read_ends_example : handle_read platform 12 session false 10 ≢ out_of_fuel
handle_read_ends_example = handle_read_ends platform 12 session false 10 (omega arith)

send-InOrder_example :
    (l : Line (session_outbox platform)) × (run
        (session_outbox platform)
        (record { session = session; under_way = []; wire = []; taken = [] })
        (sends (pos 1001) hello ∷ sends (pos 1001) bye ∷ written ∷ [])
      ≡ done l)
    × InOrder (session_outbox platform) l
send-InOrder_example =
    send-InOrder platform session (sends (pos 1001) hello ∷ sends (pos 1001) bye ∷ written ∷ [])
      refl (omega arith, (omega arith, (tt, tt)))

send_chars-InOrder_example :
    (l : Line (corotine_outbox platform)) × (run
        (corotine_outbox platform)
        (record { session = corotine; under_way = []; wire = []; taken = [] })
        (sends (pos 1001) hello ∷ sends (pos 1001) bye ∷ written ∷ [])
      ≡ done l)
    × InOrder (corotine_outbox platform) l
send_chars-InOrder_example =
    send_chars-InOrder platform corotine
      (sends (pos 1001) hello ∷ sends (pos 1001) bye ∷ written ∷ []) refl
      (omega arith, (omega arith, (tt, tt)))

on_bytes-refused_example :
    on_bytes platform 1 session (head (pos 1001) (negsuc 1) ++ hello) ≡ throws
on_bytes-refused_example =
    on_bytes-refused platform 0 session hello (pos 1001) 1 session-HasHead (omega arith) refl
      (omega arith) (omega arith)

start-refused_example :
    (s' : Corotine.CSession) × (start platform 1 corotine (head (pos 1001) (negsuc 1) ++ hello)
      ≡ done (s', close_socket ∷ clear_session "c" ∷ []))
    × (s'.b_close ≡ true)
    × (start platform 1 corotine (head (pos 1001) (negsuc 0) ++ hello) ≡ fault)
start-refused_example =
    start-refused platform 0 corotine hello (pos 1001) 0 corotine-IsHead refl (omega arith) refl
      (omega arith)

on_reads-apart_example :
    (s' : CSession) × (on_reads platform 1 session
        (apart ((pos 1001, hello) ∷ (pos 1001, bye) ∷ []))
      ≡ done (s', posts_apart ((pos 1001, hello) ∷ (pos 1001, bye) ∷ [])))
    × HasHead [] s'
on_reads-apart_example =
    on_reads-apart platform ((pos 1001, hello) ∷ (pos 1001, bye) ∷ []) 0 session session-HasHead
      (hello-IsPacket, omega arith, (bye-IsPacket, omega arith, tt))

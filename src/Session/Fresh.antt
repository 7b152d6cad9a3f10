-- ===== src/Session/Fresh.antt =====
-- The session that the constructor makes.
use Prim.Native.String.{String}
use cppmulti_thread_server_b.Prelude.{◌≡◌, refl, [], ◌∷◌, false, none, arith, length-append}
use cppmulti_thread_server_b.Memory.{done}
use cppmulti_thread_server_b.Platform.{Platform}
use cppmulti_thread_server_b.MsgNode.{msg_node, max_lenght}
use cppmulti_thread_server_b.MsgNode.Text.{fresh_node}
use cppmulti_thread_server_b.Session.{CSession, new_session}
use cppmulti_thread_server_b.Session.Read.Waiting.{HasHead}

abbrev pub fresh_session : Platform → String → CSession
fresh_session p uuid = record {
  uuid = uuid;
  recv_data = p.fresh_bytes max_lenght;
  send_queue = [];
  recv_head_node = fresh_node p 4;
  recv_msg_node = none;
  b_head_parse = false;
  b_close = false;
}

pub new_session-fresh :
    (p : Platform) (uuid : String) → new_session p uuid ≡ done (fresh_session p uuid)
unfolding new_session msg_node
new_session-fresh p uuid = refl

-- It waits for a head with an empty head buffer.
pub fresh_session-HasHead : (p : Platform) (uuid : String) → HasHead [] (fresh_session p uuid)
fresh_session-HasHead p uuid = record {
  is_head = record {
    at_start = refl;
    four = refl;
    room = omega (arith, length-append (p.fresh_bytes 4) (0 ∷ []), p.length-fresh_bytes 4);
  };
  held = (_, refl);
  filled = refl;
  waits = refl;
  data_room = p.length-fresh_bytes max_lenght;
}

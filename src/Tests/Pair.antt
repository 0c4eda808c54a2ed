-- ===== src/Tests/Pair.antt =====
-- The client and the server of lite_test/TCP_USER_TIMEOUT_test on one connection.
use test_code.Prelude.{
  ◌≡◌, ◌++◌, refl, subst, arith, length, take, some, [], ◌∷◌, true, false, List,
}
use test_code.Prelude.Map.{lookup, insert}
use test_code.Wire.{Bytes}
use test_code.TcpClient.{got, send_message, recv_message}
use test_code.TcpEcho.{
  Socket, Server, Event, readable, handle_message, serve_client, handle_event, handle_events,
}
use test_code.TcpEcho.Echo.{AllSend, arrived, all_arrived}
use test_code.TcpPair.{
  Net, Reaches, here, then_step, client_sends, server_turn, client_receives, opened, new_socket,
}
use test_code.TcpPair.Completes.{echo_completes}
use test_code.TcpPair.Echoed.{Printed, reached-Printed}

abbrev accepted : Server
accepted = record { maxevents = 2; clients = (5, new_socket) ∷ [] }

abbrev text : Bytes
text = 1 ∷ 2 ∷ 3 ∷ []

abbrev asked : Net
asked = record {
  client = record { maxevents = 1; is_open = true; sent = 1 ∷ 2 ∷ []; printed = [] };
  in_recv = true;
  server = accepted;
  up = 1 ∷ 2 ∷ [];
  down = [];
}

-- The first byte comes, and is sent back, while the second one is on its way.
abbrev half : List Event
half = readable 5 (1 ∷ []) (some 1) 0 ∷ []

abbrev served : Socket
served = record { incoming = []; sent = 1 ∷ [] }

abbrev answered : Net
answered = record asked {
  server = record { maxevents = 2; clients = (5, served) ∷ [] };
  up = 2 ∷ [];
  down = 1 ∷ [];
}

abbrev told : Net
told = record answered {
  client = record { maxevents = 1; is_open = true; sent = 1 ∷ 2 ∷ []; printed = 1 ∷ [] };
  in_recv = false;
  down = [];
}

half_sends : AllSend 5 accepted half
unfolding AllSend handle_event serve_client handle_message lookup insert
half_sends = (
  λ sock e found some_bytes.
      let same : new_socket ≡ sock = cc in
      subst (λ x. some 1 ≡ some (length (take 1024 (x.incoming ++ 1 ∷ [])))) same refl,
  tt,
)

asked_reached : Reaches text 5 (opened accepted) asked
unfolding send_message
asked_reached =
    then_step (opened accepted) (opened accepted) asked (here (opened accepted))
      (client_sends (opened accepted) (some 2) (1 ∷ 2 ∷ []) refl (omega arith) refl)

told_reached : Reaches text 5 (opened accepted) told
unfolding send_message recv_message handle_events handle_event serve_client handle_message lookup
    insert all_arrived arrived
told_reached =
    then_step (opened accepted) answered told
      (then_step (opened accepted) asked answered asked_reached (
        server_turn asked half answered.server new_socket served (1 ∷ []) (2 ∷ []) refl half_sends
          refl refl refl refl))
      (client_receives answered (got 1 []) (1 ∷ []) [] refl refl refl)

reached-Printed_example : Printed told (lookup 5 told.server.clients)
unfolding lookup
reached-Printed_example = reached-Printed 5 text accepted told refl told_reached

echo_completes_example :
    (m : Net) × Reaches text 5 asked m
    × (m.in_recv ≡ false)
    × (m.client.sent ≡ 1 ∷ 2 ∷ [])
    × (m.client.printed ≡ 1 ∷ 2 ∷ [])
unfolding lookup
echo_completes_example =
    echo_completes text 5 accepted asked [] refl asked_reached refl refl refl (omega arith)
      (omega arith) (omega arith)

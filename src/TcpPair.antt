-- ===== src/TcpPair.antt =====
-- The client and the server of lite_test/TCP_USER_TIMEOUT_test on one connection: what each of their
-- loops does, and the bytes on their way between the two.
pub mod Echoed
pub mod Completes
use test_code.Prelude.{ℕ, ◌<◌, ◌≡◌, Bool, true, false, Option, none, some, List, [], ◌++◌}
use test_code.Prelude.Map.{lookup}
use test_code.Wire.{Bytes}
use test_code.TcpClient
use test_code.TcpClient.{Client, Recv, ready, send_message, recv_message, handle_wait, connected}
use test_code.TcpEcho
use test_code.TcpEcho.{Socket, Server, Event, handle_events}
use test_code.TcpEcho.Echo.{AllSend, all_arrived}

-- `up` is on its way to the server, `down` to the client; the client waits in the recv behind a timeout,
-- or its loop is at epoll_wait.
pub record Net : Type 0 where
  pub client : Client
  pub in_recv : Bool
  pub server : Server
  pub up : Bytes
  pub down : Bytes

-- A turn of one of the loops. The client runs with the text `buf`, and the server has the connection
-- under the descriptor `fd`; its send takes all that it is given. What the client does on a timeout
-- comes in two steps, since its recv waits for the server.
pub data Step (buf : Bytes) (fd : ℕ) : Net → Net → Type 0 where
  client_sends :
      (n : Net) (written : Option ℕ) (fresh : Bytes)
      → n.in_recv ≡ false
      → 0 < n.client.maxevents
      → (send_message buf written n.client).sent ≡ n.client.sent ++ fresh
      → Step buf fd n (record n {
        client = send_message buf written n.client;
        in_recv = true;
        up = n.up ++ fresh;
      })
  client_receives :
      (n : Net) (r : Recv) (got rest : Bytes)
      → n.in_recv ≡ true
      → (recv_message r n.client).0.printed ≡ n.client.printed ++ got
      → n.down ≡ got ++ rest
      → Step buf fd n
          (record n { client = (recv_message r n.client).0; in_recv = false; down = rest })
  client_reads :
      (n : Net) (es : List (Recv × ℕ)) (c : Client) (got rest : Bytes)
      → n.in_recv ≡ false
      → 0 < n.client.maxevents
      → handle_wait buf (ready es) n.client ≡ TcpClient.went c
      → c.printed ≡ n.client.printed ++ got
      → n.down ≡ got ++ rest
      → Step buf fd n (record n { client = c; down = rest })
  server_turn :
      (n : Net) (es : List Event) (s : Server) (before after : Socket) (fresh rest : Bytes)
      → handle_events es n.server ≡ TcpEcho.went s
      → AllSend fd n.server es
      → lookup fd n.server.clients ≡ some before
      → lookup fd s.clients ≡ some after
      → n.up ≡ all_arrived fd es ++ rest
      → after.sent ≡ before.sent ++ fresh
      → Step buf fd n (record n { server = s; up = rest; down = n.down ++ fresh })
  server_closes :
      (n : Net) (es : List Event) (s : Server) (before : Socket) (rest : Bytes)
      → handle_events es n.server ≡ TcpEcho.went s
      → lookup fd n.server.clients ≡ some before
      → lookup fd s.clients ≡ none
      → n.up ≡ all_arrived fd es ++ rest
      → Step buf fd n (record n { server = s; up = rest })

pub data Reaches (buf : Bytes) (fd : ℕ) : Net → Net → Type 0 where
  here : (n : Net) → Reaches buf fd n n
  then_step : (n m l : Net) → Reaches buf fd n m → Step buf fd m l → Reaches buf fd n l

-- The client has connected, and the server has accepted it.
abbrev pub opened : Server → Net
opened s = record { client = connected; in_recv = false; server = s; up = []; down = [] }

abbrev pub new_socket : Socket
new_socket = record { incoming = []; sent = [] }

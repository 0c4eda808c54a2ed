-- ===== src/TcpEcho.antt =====
-- lite_test/TCP_USER_TIMEOUT_test/tcptest_server.cpp: an echo server on edge-triggered epoll. What the
-- system calls return is in the events. `clients` are the descriptors that epoll watches besides the
-- listener, with the bytes that wait in their socket and those that have been sent.
pub mod Watch
pub mod Echo
pub mod Buffer
use test_code.Prelude.{
  ℕ, ℤ, less_1, ◌+◌, ◌-◌, Bool, true, false, ◌&&◌, Option, none, some, List, [], ◌∷◌, ◌++◌, ltb,
  ◌==◌, if◌then◌else◌, length, take, drop,
}
use test_code.Prelude.Map.{lookup, insert, erase}
use test_code.Wire.{Bytes}

abbrev pub max_buf : ℕ
max_buf = 1024

abbrev pub eagain : ℕ
eagain = 11

pub record Socket : Type 0 where
  pub incoming : Bytes
  pub sent : Bytes

pub record Server : Type 0 where
  pub maxevents : ℕ
  pub clients : List (ℕ × Socket)

-- Whether each of the four calls of setsockopt returns 0; a call that fails is the last one.
pub record KeepAlive : Type 0 where
  pub keepalive : Bool
  pub keepidle : Bool
  pub keepinterval : Bool
  pub keepcount : Bool

unfoldable pub set_keepalive : KeepAlive → Bool
set_keepalive k =
    if k.keepalive
    then if k.keepidle then if k.keepinterval then k.keepcount else false else false
    else false

-- What epoll_wait reports. A connection: what accept returns, and whether the calls on its descriptor
-- return 0. A client: the bytes that have come in since, what send returns, of which `none` is -1, and
-- errno after handle_message, which a call that succeeds leaves as it was. A client whose recv returns
-- -1, with its errno, whether bytes wait or not.
pub data Event : Type 0 where
  connecting : Option ℕ → KeepAlive → Bool → Bool → Event
  readable : ℕ → Bytes → Option ℕ → ℕ → Event
  failing : ℕ → ℕ → Event

-- `handle_message`, where recv does not fail on bytes that wait: the socket after it; `none` where recv
-- returns 0 or -1 and the descriptor is closed.
unfoldable pub handle_message : Socket → Option ℕ → Option Socket
handle_message s written =
    if length s.incoming == 0
    then none
    else some (record {
      incoming = drop max_buf s.incoming;
      sent = elim written [ none ↦ s.sent | some sn ↦ s.sent ++ take sn (take max_buf s.incoming) ];
    })

-- The loop goes on, main has returned, or epoll does not report the event here: a descriptor that is
-- not watched, or a connection under a descriptor that is open.
pub data Result : Type 0 where
  went : Server → Result
  finished : Result
  left_main : Result
  disabled : Result

unfoldable pub connect : ℕ → KeepAlive → Bool → Bool → Server → Result
connect fd keep user_timeout added s = elim (lookup fd s.clients) [
  | some open_already ↦ disabled
  | none ↦
      if set_keepalive keep
      then if user_timeout
        then if added
          then went (record {
            maxevents = s.maxevents + 1;
            clients = insert fd (record { incoming = []; sent = [] }) s.clients;
          })
          else left_main
        else went s
      else went s
]

-- A closed descriptor is no longer watched, whether epoll_ctl is called for it or not.
unfoldable pub serve_client : ℕ → ℕ → Server → Option Socket → Server
serve_client fd errno s (some sock) = record s { clients = insert fd sock s.clients }
serve_client fd errno s none = record {
  maxevents = if errno == eagain then s.maxevents else s.maxevents - 1;
  clients = erase fd s.clients;
}

-- The body of the `for` over the events.
unfoldable pub handle_event : Event → Server → Result
handle_event (connecting none keep user_timeout added) s = went s
handle_event (connecting (some fd) keep user_timeout added) s = connect fd keep user_timeout added s
handle_event (readable fd d written errno) s = elim (lookup fd s.clients) [
  | none ↦ disabled
  | some sock ↦ went (
      serve_client fd errno s
        (handle_message (record sock { incoming = sock.incoming ++ d }) written))
]
handle_event (failing fd errno) s = elim (lookup fd s.clients) [
  | none ↦ disabled
  | some sock ↦ went (serve_client fd errno s none)
]

unfoldable pub handle_events : List Event → Server → Result
handle_events [] s = went s
handle_events (e ∷ es) s = elim (handle_event e s) [ went s' ↦ handle_events es s' | r ↦ r ]

-- `while (maxevents>0)`, a list of events for each return of epoll_wait; an error of epoll_wait, which
-- is `none`, leaves main.
unfoldable pub serve : Server → List (Option (List Event)) → Result
serve s [] = went s
serve s (batch ∷ more) =
    if ltb 0 s.maxevents
    then elim batch [
      | none ↦ left_main
      | some es ↦ elim (handle_events es s) [ went s' ↦ serve s' more | r ↦ r ]
    ]
    else finished

abbrev pub started : Server
started = record { maxevents = 1; clients = [] }

-- Whether socket, bind, listen and the epoll_ctl for the listener succeed.
pub record Calls : Type 0 where
  pub socket : Bool
  pub bind : Bool
  pub listen : Bool
  pub epoll_ctl : Bool

-- What main returns before the loop, or the loop.
pub data Main : Type 0 where
  returned : ℕ → Main
  looped : Result → Main

-- `argc` arguments, and what atoi makes of the port.
unfoldable pub server_main : ℕ → ℤ → Calls → List (Option (List Event)) → Main
server_main argc port calls more =
    if ltb argc 2
    then returned 1
    else if less_1 port
    then returned 1
    else if calls.socket
    then if calls.bind
      then if calls.listen
        then if calls.epoll_ctl then looped (serve started more) else returned 0
        else returned 0
      else returned 0
    else returned 0

-- ===== src/Tests/Epoll.antt =====
-- lite_test/TCP_USER_TIMEOUT_test/tcptest_server.cpp on concrete events.
use test_code.Prelude.{
  ◌≡◌, ◌==◌, ◌++◌, List, arith, subst, length, take, refl, none, some, [], ◌∷◌, true, false,
  replicate,
}
use test_code.Prelude.Map.{lookup, insert, erase}
use test_code.TcpEcho.{
  Socket, Server, Event, KeepAlive, connecting, readable, handle_message, went, connect,
  serve_client, handle_event, handle_events, serve, started, set_keepalive,
}
use test_code.TcpEcho.Echo.{AllSend, all_arrived, handle_events-echoed}
use test_code.TcpEcho.Buffer.{
  c_string, mark_sent, print_message, received, c_string, requested_flags, setnonblocking,
}
use test_code.TcpEcho.Watch.{CoversAfter, serve-Covers}

abbrev kept : KeepAlive
kept = record { keepalive = true; keepidle = true; keepinterval = true; keepcount = true }

-- Of 1500 bytes that come at once, 1024 are sent back, and the rest waits for the next event.
burst :
    serve started (
      (some (connecting (some 5) kept true true ∷ []))
      ∷ some (readable 5 (replicate 1500 7) (some 1024) 0 ∷ [])
      ∷ [])
    ≡ went (record {
      maxevents = 2;
      clients = (5, record { incoming = replicate 476 7; sent = replicate 1024 7 }) ∷ [];
    })
unfolding serve handle_events handle_event connect set_keepalive serve_client handle_message lookup
    insert
burst = refl

-- A client that leaves while errno is still EAGAIN is counted on.
counted_on :
    serve started
      ((some (connecting (some 5) kept true true ∷ [])) ∷ some (readable 5 [] none 11 ∷ []) ∷ [])
    ≡ went (record { maxevents = 2; clients = [] })
unfolding serve handle_events handle_event connect set_keepalive serve_client handle_message lookup
    insert erase
counted_on = refl

serve-Covers_example : CoversAfter (
    serve started (
      (some (connecting (some 5) kept true true ∷ connecting (some 6) kept false true ∷ []))
      ∷ some (readable 5 (7 ∷ []) (some 1) 0 ∷ [])
      ∷ some (readable 5 [] none 0 ∷ [])
      ∷ []))
serve-Covers_example = serve-Covers (
    (some (connecting (some 5) kept true true ∷ connecting (some 6) kept false true ∷ []))
    ∷ some (readable 5 (7 ∷ []) (some 1) 0 ∷ [])
    ∷ some (readable 5 [] none 0 ∷ [])
    ∷ [])

abbrev waits : Socket
waits = record { incoming = []; sent = 3 ∷ [] }

abbrev one_client : Server
one_client = record { maxevents = 2; clients = (5, waits) ∷ [] }

-- A client that sends 1 and 2 and then 4, while another one connects.
abbrev talk : List Event
talk =
    readable 5 (1 ∷ 2 ∷ []) (some 2) 0
    ∷ connecting (some 6) kept true true
    ∷ readable 5 (4 ∷ []) (some 1) 0
    ∷ []

abbrev talked : Server
talked = record {
  maxevents = 3;
  clients =
      (5, record { incoming = []; sent = 3 ∷ 1 ∷ 2 ∷ 4 ∷ [] })
      ∷ (6, record { incoming = []; sent = [] })
      ∷ [];
}

talk_sends : AllSend 5 one_client talk
unfolding AllSend handle_event connect set_keepalive serve_client handle_message lookup insert
talk_sends = (
  λ sock e found some_bytes.
      let same : waits ≡ sock = cc in
      subst (λ x. some 2 ≡ some (length (take 1024 (x.incoming ++ 1 ∷ 2 ∷ [])))) same refl,
  (
    λ e. absurd (omega (arith, e)),
    (
      λ sock e found some_bytes.
          let same : record { incoming = []; sent = 3 ∷ 1 ∷ 2 ∷ [] } ≡ sock = cc in
          subst (λ x. some 1 ≡ some (length (take 1024 (x.incoming ++ 4 ∷ [])))) same refl,
      tt,
    ),
  ),
)

handle_events-echoed_example : (3 ∷ 1 ∷ 2 ∷ 4 ∷ []) ++ [] ≡ ((3 ∷ []) ++ []) ++ all_arrived 5 talk
unfolding handle_events handle_event connect set_keepalive serve_client handle_message lookup insert
handle_events-echoed_example =
    handle_events-echoed 5 talk one_client talked waits
      (record { incoming = []; sent = 3 ∷ 1 ∷ 2 ∷ 4 ∷ [] }) refl talk_sends refl refl

-- Of three bytes, send takes two.
printed_twice : print_message (7 ∷ 8 ∷ 9 ∷ []) (some 2) ≡ some (7 ∷ 8 ∷ 9 ∷ [], 7 ∷ 8 ∷ [])
unfolding print_message mark_sent received c_string
printed_twice = refl

-- The index -1.
outside_buffer : print_message (7 ∷ []) none ≡ none
unfolding print_message mark_sent
outside_buffer = refl

-- The flag of F_GETFD is asked for as one of F_SETFL, and none that F_GETFL would give is kept.
wrong_flags : setnonblocking (some 1) (λ flags. flags == 2049) ≡ true
unfolding setnonblocking requested_flags
wrong_flags = refl

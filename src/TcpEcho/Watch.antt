-- ===== src/TcpEcho/Watch.antt =====
-- The count of events in lite_test/TCP_USER_TIMEOUT_test/tcptest_server.cpp.
use test_code.Prelude.{
  ℕ, suc, ◌≤◌, ◌<◌, ◌≡◌, Bool, Option, none, some, List, [], ◌∷◌, arith, lt→ltb, length,
  Option-cases, inl, inr,
}
use test_code.Prelude.Map.{lookup, insert, erase}
use test_code.TcpEcho.{
  Socket, Server, KeepAlive, Event, connecting, readable, failing, Result, went, finished,
  left_main, disabled, connect, serve_client, handle_event, handle_events, serve, started,
}

module _ {V : Type 0} where
  length-insert_new : (k : ℕ) (v : V) (m : List (ℕ × V)) → length (insert k v m) ≤ suc (length m)
  unfolding insert
  length-insert_new k v [] = omega arith
  length-insert_new k v ((j, w) ∷ m) = ground (arith, length-insert_new k v m)

  length-insert_old :
      (k : ℕ) (v w : V) (m : List (ℕ × V)) → lookup k m ≡ some w → length (insert k v m) ≡ length m
  unfolding insert lookup
  length-insert_old k v w [] h = absurd cc
  length-insert_old k v w ((j, x) ∷ m) h = ground (arith, length-insert_old k v w m)

  length-erase : (k : ℕ) (m : List (ℕ × V)) → length (erase k m) ≤ length m
  unfolding erase
  length-erase k [] = omega arith
  length-erase k ((j, w) ∷ m) = ground (arith, length-erase k m)

  length-erase_old :
      (k : ℕ) (w : V) (m : List (ℕ × V)) → lookup k m ≡ some w → length (erase k m) < length m
  unfolding erase lookup
  length-erase_old k w [] h = absurd cc
  length-erase_old k w ((j, x) ∷ m) h = ground (arith, length-erase_old k w m, length-erase k m)

-- There is room for the listener and for every client.
abbrev pub Covers : Server → Type 0
Covers s = length s.clients < s.maxevents

abbrev pub CoversAfter : Result → Type 0
CoversAfter (went s) = Covers s
CoversAfter finished = ⊥
CoversAfter left_main = Unit
CoversAfter disabled = Unit

connect-Covers :
    (fd : ℕ) (keep : KeepAlive) (user_timeout added : Bool) (s : Server)
    → Covers s
    → CoversAfter (connect fd keep user_timeout added s)
unfolding connect
connect-Covers fd keep user_timeout added s h =
    ground (arith, length-insert_new fd (record { incoming = []; sent = [] }) s.clients)

serve_client-Covers :
    (fd errno : ℕ) (s : Server) (old : Socket) (r : Option Socket)
    → lookup fd s.clients ≡ some old
    → Covers s
    → Covers (serve_client fd errno s r)
unfolding serve_client
serve_client-Covers fd errno s old (some sock) found h =
    omega (arith, length-insert_old fd sock old s.clients found)
serve_client-Covers fd errno s old none found h =
    ground (arith, length-erase_old fd old s.clients found)

handle_event-Covers : (e : Event) (s : Server) → Covers s → CoversAfter (handle_event e s)
unfolding handle_event
handle_event-Covers (connecting none keep user_timeout added) s h = h
handle_event-Covers (connecting (some fd) keep user_timeout added) s h =
    connect-Covers fd keep user_timeout added s h
handle_event-Covers (readable fd d written errno) s h = elim (Option-cases (lookup fd s.clients)) [
  | inl unwatched ↦ rw (unwatched, handle_event) tt
  | inr (sock, found) ↦ rw (found, handle_event) (serve_client-Covers fd errno s sock _ found h)
]
handle_event-Covers (failing fd errno) s h = elim (Option-cases (lookup fd s.clients)) [
  | inl unwatched ↦ rw (unwatched, handle_event) tt
  | inr (sock, found) ↦ rw (found, handle_event) (serve_client-Covers fd errno s sock none found h)
]

handle_events-Covers : (es : List Event) (s : Server) → Covers s → CoversAfter (handle_events es s)
unfolding handle_events
handle_events-Covers [] s h = h
handle_events-Covers (e ∷ es) s h =
    go (handle_event e s) (handle_event-Covers e s h) (handle_events-Covers es)
  where
    go :
        (r : Result)
        → CoversAfter r
        → ((s' : Server) → Covers s' → CoversAfter (handle_events es s'))
        → CoversAfter (elim r [ went s' ↦ handle_events es s' | r' ↦ r' ])
    go (went s') k ih = ih s' k
    go finished k ih = k
    go left_main k ih = k
    go disabled k ih = k

serve_from-Covers :
    (batches : List (Option (List Event))) (s : Server) → Covers s → CoversAfter (serve s batches)
unfolding serve
serve_from-Covers [] s h = h
serve_from-Covers (none ∷ more) s h = rw (lt→ltb 0 s.maxevents (omega arith)) tt
serve_from-Covers (some es ∷ more) s h =
    rw (lt→ltb 0 s.maxevents (omega arith))
      (go (handle_events es s) (handle_events-Covers es s h) (serve_from-Covers more))
  where
    go :
        (r : Result)
        → CoversAfter r
        → ((s' : Server) → Covers s' → CoversAfter (serve s' more))
        → CoversAfter (elim r [ went s' ↦ serve s' more | r' ↦ r' ])
    go (went s') k ih = ih s' k
    go finished k ih = k
    go left_main k ih = k
    go disabled k ih = k

-- Whatever epoll reports and the system calls return, the count of events stays larger than the
-- number of clients that are watched, so that there is room for the listener and each of them; and
-- the test of the loop never fails.
pub serve-Covers : (batches : List (Option (List Event))) → CoversAfter (serve started batches)
serve-Covers batches = serve_from-Covers batches started (omega arith)

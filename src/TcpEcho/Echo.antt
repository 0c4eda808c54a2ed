-- ===== src/TcpEcho/Echo.antt =====
-- What lite_test/TCP_USER_TIMEOUT_test/tcptest_server.cpp sends back to a client.
use native.Mathlib.Decide.{ℕ_discrete}
use test_code.Prelude.{
  ℕ, ◌+◌, ◌<◌, ◌≡◌, ◌≢◌, refl, sym, subst, ap, ◌∙◌, Bool, true, false, Option, none, some, List, [],
  ◌∷◌, ◌++◌, arith, append_assoc, append-nil, ◌==◌, if◌then◌else◌, length, take, drop,
  take-append-drop, take_all, Option-cases, Bool-cases, inl, inr,
}
use test_code.Prelude.Map.{lookup, insert, lookup-insert_self, lookup-insert_ne, lookup-erase}
use test_code.Wire.{Bytes}
use test_code.TcpEcho.{
  max_buf, Socket, Server, KeepAlive, Event, connecting, readable, failing, Result, went, finished,
  left_main, disabled, handle_message, connect, serve_client, handle_event, handle_events,
  set_keepalive,
}

-- The bytes that come in on a descriptor with an event.
unfoldable pub arrived : ℕ → Event → Bytes
arrived fd (connecting accepted keep user_timeout added) = []
arrived fd (readable j d written errno) = if j == fd then d else []
arrived fd (failing j errno) = []

unfoldable pub all_arrived : ℕ → List Event → Bytes
all_arrived fd [] = []
all_arrived fd (e ∷ es) = arrived fd e ++ all_arrived fd es

-- What has come in on a socket, if it is watched, has been sent back or waits.
abbrev pub Holds : Bytes → Option Socket → Type 0
Holds all none = Unit
Holds all (some sock) = sock.sent ++ sock.incoming ≡ all

abbrev pub HoldsAt : ℕ → Bytes → Server → Type 0
HoldsAt fd all s = Holds all (lookup fd s.clients)

abbrev pub HoldsAfter : ℕ → Bytes → Result → Type 0
HoldsAfter fd all (went s) = HoldsAt fd all s
HoldsAfter fd all r = Unit

-- The event does not open the descriptor again, and if recv gives some bytes on it then send takes them
-- all.
abbrev pub Sends : ℕ → Server → Event → Type 0
Sends fd s (connecting none keep user_timeout added) = Unit
Sends fd s (connecting (some j) keep user_timeout added) = j ≢ fd
Sends fd s (readable j d written errno) =
    (sock : Socket)
    → j ≡ fd
    → lookup fd s.clients ≡ some sock
    → 0 < length (sock.incoming ++ d)
    → written ≡ some (length (take max_buf (sock.incoming ++ d)))
Sends fd s (failing j errno) = Unit

handle_message-Holds :
    (sock : Socket) (written : Option ℕ)
    → (0 < length sock.incoming → written ≡ some (length (take max_buf sock.incoming)))
    → Holds (sock.sent ++ sock.incoming) (handle_message sock written)
unfolding handle_message
handle_message-Holds sock written h = elim (Bool-cases (length sock.incoming == 0)) [
  | inl empty ↦ rw empty tt
  | inr some_bytes ↦
      let chunk = take max_buf sock.incoming in
      rw (some_bytes, h (ground (arith, some_bytes)), take_all (length chunk) chunk (omega arith))
        (append_assoc sock.sent chunk (drop max_buf sock.incoming)
          ∙ ap (λ x. sock.sent ++ x) (take-append-drop max_buf sock.incoming))
]

either-Holds :
    (fd : ℕ) (all : Bytes) (b : Bool) (x y : Result)
    → HoldsAfter fd all x
    → HoldsAfter fd all y
    → HoldsAfter fd all (if b then x else y)
either-Holds fd all true x y h k = h
either-Holds fd all false x y h k = k

connect-Holds :
    (fd j : ℕ) (keep : KeepAlive) (user_timeout added : Bool) (all : Bytes) (s : Server)
    → j ≢ fd
    → HoldsAt fd all s
    → HoldsAfter fd all (connect j keep user_timeout added s)
unfolding connect
connect-Holds fd j keep user_timeout added all s apart h =
    elim (Option-cases (lookup j s.clients)) [
      | inr (sock, open_already) ↦ rw (open_already, connect) tt
      | inl free ↦
          let opened = subst (Holds all) (sym (lookup-insert_ne j fd new s.clients apart)) h in
          rw (free, connect)
            (either-Holds fd all (set_keepalive keep) _ (went s)
              (either-Holds fd all user_timeout _ (went s)
                (either-Holds fd all added
                  (went (record { maxevents = s.maxevents + 1; clients = insert j new s.clients }))
                  left_main opened tt)
                h)
              h)
    ]
  where
    new : Socket
    new = record { incoming = []; sent = [] }

serve_client-own :
    (fd errno : ℕ) (s : Server) (all : Bytes) (r : Option Socket)
    → Holds all r
    → HoldsAt fd all (serve_client fd errno s r)
unfolding serve_client
serve_client-own fd errno s all (some sock) h = rw (lookup-insert_self fd sock s.clients) h
serve_client-own fd errno s all none h =
    let own : (fd == fd) ≡ true = ground arith in rw (lookup-erase fd fd s.clients, own) tt

serve_client-other :
    (fd j errno : ℕ) (s : Server) (all : Bytes) (r : Option Socket)
    → j ≢ fd
    → HoldsAt fd all s
    → HoldsAt fd all (serve_client j errno s r)
unfolding serve_client
serve_client-other fd j errno s all (some sock) apart h =
    rw (lookup-insert_ne j fd sock s.clients apart) h
serve_client-other fd j errno s all none apart h =
    let other : (j == fd) ≡ false = ground (arith, apart) in
    rw (lookup-erase j fd s.clients, other) h

-- What comes in on a descriptor that is watched, and what is sent back of it.
readable-own :
    (j errno : ℕ) (d : Bytes) (written : Option ℕ) (all : Bytes) (s : Server) (sock : Socket)
    → lookup j s.clients ≡ some sock
    → HoldsAt j all s
    → (0 < length (sock.incoming ++ d)
        → written ≡ some (length (take max_buf (sock.incoming ++ d))))
    → HoldsAt j (all ++ d) (
        serve_client j errno s
          (handle_message (record sock { incoming = sock.incoming ++ d }) written))
readable-own j errno d written all s sock found h w =
    let before : sock.sent ++ sock.incoming ≡ all = subst (Holds all) found h in
    let fed : Socket = record sock { incoming = sock.incoming ++ d } in
    serve_client-own j errno s (all ++ d) (handle_message fed written) (
      subst (λ x. Holds x (handle_message fed written))
        (sym (append_assoc sock.sent sock.incoming d) ∙ ap (λ x. x ++ d) before)
        (handle_message-Holds fed written w))

handle_event-Holds :
    (fd : ℕ) (all : Bytes) (s : Server) (e : Event)
    → HoldsAt fd all s
    → Sends fd s e
    → HoldsAfter fd (all ++ arrived fd e) (handle_event e s)
unfolding handle_event arrived
handle_event-Holds fd all s (connecting none keep user_timeout added) h w =
    subst (λ x. HoldsAt fd x s) (sym (append-nil all)) h
handle_event-Holds fd all s (connecting (some j) keep user_timeout added) h w =
    subst (λ x. HoldsAfter fd x (connect j keep user_timeout added s)) (sym (append-nil all))
      (connect-Holds fd j keep user_timeout added all s w h)
handle_event-Holds fd all s (readable j d written errno) h w =
    elim (Option-cases (lookup j s.clients)) [
      | inl unwatched ↦ rw (unwatched, handle_event) tt
      | inr (sock, found) ↦
          let fed : Socket = record sock { incoming = sock.incoming ++ d } in
          elim (ℕ_discrete j fd) [
            | yes own ↦
                let hit : (j == fd) ≡ true = ground arith in
                rw (found, hit, handle_event)
                  (subst
                    (λ i.
                      HoldsAt i (all ++ d) (serve_client j errno s (handle_message fed written)))
                    own
                    (readable-own j errno d written all s sock found
                      (subst (λ i. HoldsAt i all s) (sym own) h)
                      (w sock own (subst (λ i. lookup i s.clients ≡ some sock) own found))))
            | no other ↦
                let miss : (j == fd) ≡ false = ground arith in
                rw (found, miss, handle_event)
                  (subst (λ x. HoldsAt fd x (serve_client j errno s (handle_message fed written)))
                    (sym (append-nil all))
                    (serve_client-other fd j errno s all (handle_message fed written) other h))
          ]
    ]
handle_event-Holds fd all s (failing j errno) h w = elim (Option-cases (lookup j s.clients)) [
  | inl unwatched ↦ rw (unwatched, handle_event) tt
  | inr (sock, found) ↦
      subst (λ x. HoldsAfter fd x (handle_event (failing j errno) s)) (sym (append-nil all))
        (rw (found, handle_event)
          (elim (ℕ_discrete j fd) [
            | yes own ↦
                subst (λ i. HoldsAt i all (serve_client j errno s none)) own
                  (serve_client-own j errno s all none tt)
            | no other ↦ serve_client-other fd j errno s all none other h
          ]))
]

-- The events of one return of epoll_wait, each as above in the state that it finds.
unfoldable pub AllSend : ℕ → Server → List Event → Type 0
AllSend fd s [] = Unit
AllSend fd s (e ∷ es) =
    Sends fd s e
    × (elim (handle_event e s) as (λ _. Type 0) [ went s' ↦ AllSend fd s' es | r ↦ Unit ])

pub handle_events-Holds :
    (fd : ℕ) (all : Bytes) (es : List Event) (s : Server)
    → HoldsAt fd all s
    → AllSend fd s es
    → HoldsAfter fd (all ++ all_arrived fd es) (handle_events es s)
unfolding handle_events all_arrived AllSend
handle_events-Holds fd all [] s h w = subst (λ x. HoldsAt fd x s) (sym (append-nil all)) h
handle_events-Holds fd all (e ∷ es) s h w =
    subst (λ x. HoldsAfter fd x (handle_events (e ∷ es) s))
      (append_assoc all (arrived fd e) (all_arrived fd es))
      (go (handle_event e s) (handle_event-Holds fd all s e h (w.0)) (w.1)
        (λ s'. handle_events-Holds fd (all ++ arrived fd e) es s'))
  where
    go :
        (r : Result)
        → HoldsAfter fd (all ++ arrived fd e) r
        → (elim r as (λ _. Type 0) [ went s' ↦ AllSend fd s' es | r' ↦ Unit ])
        → ((s' : Server)
            → HoldsAt fd (all ++ arrived fd e) s'
            → AllSend fd s' es
            → HoldsAfter fd ((all ++ arrived fd e) ++ all_arrived fd es) (handle_events es s'))
        → HoldsAfter fd
            ((all ++ arrived fd e) ++ all_arrived fd es)
            (elim r [ went s' ↦ handle_events es s' | r' ↦ r' ])
    go (went s') k a ih = ih s' k a
    go finished k a ih = tt
    go left_main k a ih = tt
    go disabled k a ih = tt

-- While a client is watched, whatever comes in from other clients and whoever connects, what has been
-- sent back to it and then what waits in its socket are, together, what they were before and then the
-- bytes that it has sent since, in order; if send takes all that it is given for this client.
pub handle_events-echoed :
    (fd : ℕ) (es : List Event) (s s' : Server) (sock sock' : Socket)
    → lookup fd s.clients ≡ some sock
    → AllSend fd s es
    → handle_events es s ≡ went s'
    → lookup fd s'.clients ≡ some sock'
    → sock'.sent ++ sock'.incoming ≡ (sock.sent ++ sock.incoming) ++ all_arrived fd es
handle_events-echoed fd es s s' sock sock' found w ran found' =
    let all = sock.sent ++ sock.incoming in
    let holds : HoldsAt fd all s = subst (Holds all) (sym found) refl in
    let after =
      subst (HoldsAfter fd (all ++ all_arrived fd es)) ran
        (handle_events-Holds fd all es s holds w) in
    subst (Holds (all ++ all_arrived fd es)) found' after

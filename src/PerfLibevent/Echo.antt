-- ===== src/PerfLibevent/Echo.antt =====
-- What a client of dev_examples/perf_libevent/server.cpp can rely on, among any other clients.
use native.Mathlib.Decide.{ℕ_discrete}
use test_code.Prelude.{
  ℕ, ◌^◌, ◌≤◌, ◌<◌, ◌≡◌, refl, sym, ap, subst, ◌∙◌, ◌≢◌, Option, none, some, true, false, List, [],
  ◌∷◌, ◌++◌, le→ltb, append_assoc, append-nil, arith, All, flatten, ◌==◌,
}
use test_code.Prelude.Map.{lookup-insert_self, lookup}
use test_code.Wire.{Bytes, ByteOrder, to_be32}
use test_code.Libevent.{Libevent, Channel, IsByteQueue}
use test_code.Framing.{Mode, header, body, wait, decode, encode, encode_all, IsSendable}
use test_code.Framing.Decode.{decode-header_short}
use test_code.Framing.Echo.{
  Seen, open_at, ended, echoed, echoed-wait, advance, advance_split, stream_echoed, decode-empty,
  decode-oversized,
}
use test_code.PerfLibevent.{
  Globals, max_size, fd_setsize, Server, do_accept, Event, accepting, arriving, failing, Process,
  alive, dead, step, run,
}
use test_code.PerfLibevent.Mode.{mode_of-done}
use test_code.PerfLibevent.Run.{
  AllSmall, Spares, pieces, seen_by, seen_at, Keeps, absorb, step-Keeps,
}
use test_code.PerfLibevent.Frame.{do_accept-SmallAt}

absorb_all : ℕ → Seen → List Event → Seen
absorb_all fd v [] = v
absorb_all fd v (e ∷ es) = absorb_all fd (absorb fd v e) es

absorb_all-pieces :
    (fd : ℕ) (es : List Event) (v : Seen) (a : Bytes)
    → absorb_all fd (advance max_size v a) es ≡ advance max_size v (a ++ flatten (pieces fd es))
unfolding absorb_all
absorb_all-pieces fd [] v a = ap (advance max_size v) (sym (append-nil a))
absorb_all-pieces fd (accepting j ∷ es) v a = absorb_all-pieces fd es v a
absorb_all-pieces fd (failing j flags err ∷ es) v a = absorb_all-pieces fd es v a
absorb_all-pieces fd (arriving j d ∷ es) v a = elim (ℕ_discrete j fd) [
  | yes own ↦
      let hit : (j == fd) ≡ true = ground arith in
      rw hit (
        ap (λ w. absorb_all fd w es) (advance_split max_size v a d)
        ∙ absorb_all-pieces fd es v (a ++ d)
        ∙ ap (advance max_size v) (append_assoc a d (flatten (pieces fd es))))
  | no other ↦ let miss : (j == fd) ≡ false = ground arith in rw miss (absorb_all-pieces fd es v a)
]

module _ {ev : Libevent} (q : IsByteQueue ev) (o : ByteOrder) (fd : ℕ) where
  run-Keeps :
      (es : List Event) (s : Server ev) (v : Seen)
      → All (Spares fd) es
      → AllSmall s
      → seen_at q fd s ≡ some v
      → Keeps q fd (absorb_all fd v es) (run o s es)
  unfolding run absorb_all
  run-Keeps [] s v spares small e = (e, small)
  run-Keeps (x ∷ es) s v (spare, spares) small e =
      go (step o s x) (step-Keeps q fd o s v x spare small e)
        (λ s' e' small'. run-Keeps es s' (absorb fd v x) spares small' e')
    where
      go :
          (p : Option (Process ev))
          → Keeps q fd (absorb fd v x) p
          → ((s' : Server ev)
              → seen_at q fd s' ≡ some (absorb fd v x)
              → AllSmall s'
              → Keeps q fd (absorb_all fd (absorb fd v x) es) (run o s' es))
          → Keeps q fd
              (absorb_all fd (absorb fd v x) es)
              (elim p [ none ↦ none | some dead ↦ some dead | some (alive s') ↦ run o s' es ])
      go none k ih = k
      go (some dead) k ih = tt
      go (some (alive s')) k ih = ih s' k.0 k.1

  module _ (es : List Event) (s : Server ev) (small : AllSmall s)
      (spares : All (Spares fd) es) where
    -- A connection that waits in some mode, with some bytes unread, is after any events what the
    -- decoder makes of those bytes and its own, however these are cut and whatever comes in on
    -- the other descriptors: it has the echo of every complete message and no other byte in the
    -- output, unless the process has ended. The run itself never fails to return.
    pub client_isolated :
        (m : Mode) (rest out : Bytes)
        → decode max_size m rest ≡ wait m rest
        → seen_at q fd s ≡ some (open_at m rest out)
        → Keeps q fd (advance max_size (open_at m rest out) (flatten (pieces fd es))) (run o s es)
    client_isolated m rest out settled e =
        let v = open_at m rest out in
        let idle : advance max_size v [] ≡ v =
          ap (echoed out) (ap (decode max_size m) (append-nil rest) ∙ settled)
          ∙ echoed-wait out m rest in
        subst (λ w. Keeps q fd w (run o s es))
          (ap (λ w. absorb_all fd w es) (sym idle) ∙ absorb_all-pieces fd es v [])
          (run-Keeps es s v spares small e)

    idle_run :
        (out sent : Bytes)
        → seen_at q fd s ≡ some (open_at header [] out)
        → flatten (pieces fd es) ≡ sent
        → Keeps q fd (echoed out (decode max_size header sent)) (run o s es)
    idle_run out sent e bytes =
        subst (λ x. Keeps q fd (echoed out (decode max_size header x)) (run o s es)) bytes
          (client_isolated header [] out (decode-header_short max_size [] (omega arith)) e)

  -- Whatever was left behind under its number, a descriptor that is accepted starts with a header.
  pub accepted_seen :
      (s : Server ev)
      → fd ≤ fd_setsize
      → seen_at q fd (do_accept (some fd) s) ≡ some (open_at header [] [])
  unfolding do_accept
  accepted_seen s h = rw (
    le→ltb fd_setsize fd h,
    lookup-insert_self fd (record { input = ev.empty; output = ev.empty }) s.channels,
    mode_of-done s.globals fd s.globals.session_info,
    q.empty_lem,
  )

  accepted_run :
      (es : List Event) (s : Server ev) (sent : Bytes)
      → AllSmall s
      → All (Spares fd) es
      → fd ≤ fd_setsize
      → flatten (pieces fd es) ≡ sent
      → Keeps q fd (echoed [] (decode max_size header sent)) (run o s (accepting (some fd) ∷ es))
  unfolding run step
  accepted_run es s sent small spares h bytes =
      idle_run es (do_accept (some fd) s) (λ j. do_accept-SmallAt s (some fd) j (small j)) spares []
        sent (accepted_seen s h) bytes

seen_by-ne-ended :
    {ev : Libevent} (q : IsByteQueue ev) (fd : ℕ) (g : Globals) (c : Option (Channel ev))
    → seen_by q fd g c ≢ some ended
seen_by-ne-ended q fd g none e = cc
seen_by-ne-ended q fd g (some c) e = cc

Keeps-ended :
    {ev : Libevent} (q : IsByteQueue ev) (fd : ℕ) (p : Option (Process ev))
    → Keeps q fd ended p
    → p ≡ some dead
Keeps-ended q fd none k = absurd k
Keeps-ended q fd (some dead) k = refl
Keeps-ended q fd (some (alive s)) k =
    absurd (seen_by-ne-ended q fd s.globals (lookup fd s.channels) k.0)

module _ {ev : Libevent} (q : IsByteQueue ev) (o : ByteOrder) (fd : ℕ) (es : List Event)
    (s : Server ev) (ps : List Bytes) where
  -- A client is accepted, on any server and under any descriptor that the server takes, and sends
  -- messages of 1 to 1000 bytes, in pieces of any sizes and between any events on other descriptors.
  -- Then, unless the process has ended, its output holds these messages, each behind its length,
  -- in order and nothing else, no byte is unread, and the next header is waited for.
  pub sent_back :
      AllSmall s
      → All (Spares fd) es
      → fd ≤ fd_setsize
      → All (IsSendable max_size) ps
      → flatten (pieces fd es) ≡ encode_all ps
      → Keeps q fd (open_at header [] (encode_all ps)) (run o s (accepting (some fd) ∷ es))
  sent_back small spares h sendable bytes =
      subst (λ v. Keeps q fd v (run o s (accepting (some fd) ∷ es)))
        (stream_echoed max_size (omega arith) [] ps [] sendable
          ∙ ap (echoed (encode_all ps)) (decode-header_short max_size [] (omega arith))
          ∙ echoed-wait (encode_all ps) header [])
        (accepted_run q o fd es s (encode_all ps ++ []) small spares h
          (bytes ∙ sym (append-nil (encode_all ps))))

  -- If an empty message comes last, then it is not echoed: only those before it are, and the
  -- connection goes on waiting for the 0 bytes of a body.
  pub empty_message_waits :
      AllSmall s
      → All (Spares fd) es
      → fd ≤ fd_setsize
      → All (IsSendable max_size) ps
      → flatten (pieces fd es) ≡ encode_all ps ++ encode []
      → Keeps q fd (open_at (body 0) [] (encode_all ps)) (run o s (accepting (some fd) ∷ es))
  empty_message_waits small spares h sendable bytes =
      subst (λ v. Keeps q fd v (run o s (accepting (some fd) ∷ es)))
        (stream_echoed max_size (omega arith) [] ps (encode []) sendable
          ∙ ap (echoed (encode_all ps)) (decode-empty max_size)
          ∙ echoed-wait (encode_all ps) (body 0) [])
        (accepted_run q o fd es s (encode_all ps ++ encode []) small spares h bytes)

  -- One client that announces more than 1000 bytes, at any point of its stream, ends the process,
  -- whatever the other clients do and whatever comes behind the header.
  pub oversized_ends :
      (n : ℕ) (more : Bytes)
      → AllSmall s
      → All (Spares fd) es
      → fd ≤ fd_setsize
      → All (IsSendable max_size) ps
      → max_size < n
      → n < 2 ^ 32
      → flatten (pieces fd es) ≡ encode_all ps ++ (to_be32 n ++ more)
      → run o s (accepting (some fd) ∷ es) ≡ some dead
  oversized_ends n more small spares h sendable big word bytes = Keeps-ended q fd _ (
      subst (λ v. Keeps q fd v (run o s (accepting (some fd) ∷ es)))
        (stream_echoed max_size (omega arith) [] ps (to_be32 n ++ more) sendable
          ∙ ap (echoed (encode_all ps)) (decode-oversized max_size n more big word))
        (accepted_run q o fd es s (encode_all ps ++ (to_be32 n ++ more)) small spares h bytes))

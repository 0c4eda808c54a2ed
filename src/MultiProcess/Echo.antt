-- ===== src/MultiProcess/Echo.antt =====
-- What a client of dev_examples/perf_libevent_multi_processes/server.cpp gets.
use test_code.Prelude.{
  ℕ, ◌≤◌, ◌<◌, ◌≡◌, refl, sym, ap, subst, ◌∙◌, arith, Option, none, some, true, false, List, [],
  ◌∷◌, ◌++◌, All, flatten, append_assoc, append-nil, get_elem?, ◌==◌, ltb,
}
use test_code.Prelude.Map.{at, lookup}
use test_code.Wire.{Bytes, ByteOrder}
use test_code.Libevent.{Libevent, IsByteQueue}
use test_code.Framing.{header, decode}
use test_code.Framing.Decode.{decode-header_short}
use test_code.Framing.Echo.{Seen, open_at, ended, echoed, echoed-wait, advance, advance_split}
use test_code.PerfLibevent
use test_code.PerfLibevent.{
  max_size, fd_setsize, Server, Event, accepting, arriving, failing, Process, alive, dead, arrive,
}
use test_code.PerfLibevent.Run.{AllSmall, pieces, seen_at, Shows, arrive-own}
use test_code.PerfLibevent.Frame.{do_accept-SmallAt}
use test_code.PerfLibevent.Echo.{accepted_seen}
use test_code.MultiProcess
use test_code.MultiProcess.{Child, running, fresh, forked, do_accept, child_step, run}
use test_code.MultiProcess.Callbacks.{as_child, child_step-arrive, do_accept-taken}
use test_code.MultiProcess.Alone.{events_of, child_run, child_run-step, run-alone}

-- No connection is taken: accept fails, or the descriptor is too large.
abbrev pub Untaken : Event → Type 0
Untaken (accepting none) = Unit
Untaken (accepting (some fd)) = fd_setsize < fd
Untaken (arriving fd d) = ⊥
Untaken (failing fd flags err) = ⊥

-- Bytes come in on the descriptor.
abbrev pub Brings : ℕ → Event → Type 0
Brings fd (accepting j) = ⊥
Brings fd (arriving j d) = j ≡ fd
Brings fd (failing j flags err) = ⊥

module _ {ev : Libevent} (q : IsByteQueue ev) (o : ByteOrder) (fd : ℕ) where
  -- A child that has taken its connection, and shows it as `v`, and that can read whatever comes in
  -- next; it has ended where `v` says so.
  abbrev pub Serves : Seen → Child ev → Type 0
  Serves v (running true s) = ⊥
  Serves v (running false s) =
      (seen_at q fd s ≡ some v)
      × ((d : Bytes) → (c : Child ev) × (child_step o (arriving fd d) (running false s) ≡ some c))
  Serves v MultiProcess.ended = v ≡ ended

  abbrev ServesAfter : Seen → Option (Child ev) → Type 0
  ServesAfter v none = v ≡ ended
  ServesAfter v (some c) = Serves v c

  child_run-Untaken :
      (before rest : List Event) (s : Server ev)
      → All Untaken before
      → child_run o (running true s) (before ++ rest) ≡ child_run o (running true s) rest
  unfolding child_run child_step do_accept
  child_run-Untaken [] rest s h = refl
  child_run-Untaken (accepting none ∷ before) rest s h = child_run-Untaken before rest s h.1
  child_run-Untaken (accepting (some j) ∷ before) rest s h =
      let large : ltb fd_setsize j ≡ true = ground (arith, h.0) in
      rw large (child_run-Untaken before rest s h.1)
  child_run-Untaken (arriving j d ∷ before) rest s h = absurd h.0
  child_run-Untaken (failing j flags err ∷ before) rest s h = absurd h.0

  ended_run : (es : List Event) → ServesAfter ended (child_run o MultiProcess.ended es)
  unfolding child_run child_step
  ended_run [] = refl
  ended_run (e ∷ es) = refl

  advance-ended :
      (v : Seen) (a b : Bytes) → advance max_size v a ≡ ended → advance max_size v (a ++ b) ≡ ended
  advance-ended v a b h = sym (advance_split max_size v a b) ∙ ap (λ w. advance max_size w b) h

  reads_next :
      (s : Server ev) (v : Seen) (d : Bytes)
      → AllSmall s
      → seen_at q fd s ≡ some v
      → (c : Child ev) × (child_step o (arriving fd d) (running false s) ≡ some c)
  reads_next s v d small e =
      go (arrive o fd d s) (arrive-own q fd o s v d small e) (child_step-arrive o false fd d s)
    where
      go :
          (p : Option (Process ev))
          → Shows q fd (advance max_size v d) p
          → child_step o (arriving fd d) (running false s) ≡ as_child false p
          → (c : Child ev) × (child_step o (arriving fd d) (running false s) ≡ some c)
      go none k h = absurd k
      go (some dead) k h = (MultiProcess.ended, h)
      go (some (alive s')) k h = (running false s', h)

  brought_run :
      (es : List Event) (s : Server ev) (v : Seen) (a : Bytes)
      → All (Brings fd) es
      → AllSmall s
      → seen_at q fd s ≡ some (advance max_size v a)
      → ServesAfter
          (advance max_size v (a ++ flatten (pieces fd es)))
          (child_run o (running false s) es)
  unfolding child_run
  brought_run [] s v a h small e = (
    e ∙ ap (λ x. some (advance max_size v x)) (sym (append-nil a)),
    λ d. reads_next s (advance max_size v a) d small e,
  )
  brought_run (accepting j ∷ es) s v a h small e = absurd h.0
  brought_run (failing j flags err ∷ es) s v a h small e = absurd h.0
  brought_run (arriving j d ∷ es) s v a (own, others) small e =
      let hit : (fd == fd) ≡ true = ground arith in
      rw (own, hit, child_run, child_step-arrive o false fd d s)
        (subst (λ x. ServesAfter x (after (arrive o fd d s)))
          (ap (advance max_size v) (append_assoc a d (flatten (pieces fd es))))
          (go (arrive o fd d s)
            (subst (λ x. Shows q fd x (arrive o fd d s)) (advance_split max_size v a d)
              (arrive-own q fd o s (advance max_size v a) d small e))
            (λ s' k. brought_run es s' v (a ++ d) others k.1 k.0)))
    where
      after : Option (Process ev) → Option (Child ev)
      after p = elim (as_child false p) [ none ↦ none | some c ↦ child_run o c es ]

      go :
          (p : Option (Process ev))
          → Shows q fd (advance max_size v (a ++ d)) p
          → ((s' : Server ev)
              → (seen_at q fd s' ≡ some (advance max_size v (a ++ d))) × AllSmall s'
              → ServesAfter
                  (advance max_size v ((a ++ d) ++ flatten (pieces fd es)))
                  (child_run o (running false s') es))
          → ServesAfter (advance max_size v ((a ++ d) ++ flatten (pieces fd es))) (after p)
      go none k ih = absurd k
      go (some dead) k ih =
          subst (λ x. ServesAfter x (child_run o MultiProcess.ended es))
            (sym (advance-ended v (a ++ d) (flatten (pieces fd es)) k)) (ended_run es)
      go (some (alive s')) k ih = ih s' k

  client_run :
      (before after : List Event)
      → All Untaken before
      → fd ≤ fd_setsize
      → All (Brings fd) after
      → ServesAfter
          (echoed [] (decode max_size header (flatten (pieces fd after))))
          (child_run o (running true fresh) (before ++ accepting (some fd) ∷ after))
  unfolding at lookup
  client_run before after refusals h own =
      let v = open_at header [] [] in
      let idle : v ≡ advance max_size v [] = sym (
        ap (echoed []) (decode-header_short max_size [] (omega arith))
        ∙ echoed-wait [] header []) in
      let s : Server ev = PerfLibevent.do_accept (some fd) fresh in
      let taken : child_step o (accepting (some fd)) (running true fresh) ≡ some (running false s) =
        unfold child_step in ap some (do_accept-taken fd fresh h) in
      rw
        (
          child_run-Untaken before (accepting (some fd) ∷ after) fresh refusals,
          child_run-step o (accepting (some fd)) (running true fresh) (running false s) after taken,
        )
        (brought_run after s v [] own (λ j. do_accept-SmallAt fresh (some fd) j (omega arith))
          (accepted_seen q o fd fresh h ∙ ap some idle))

  -- A child fails to take connections, or refuses them because their descriptors are too large; then
  -- it takes one, on which bytes come in, cut into any pieces; whatever the other children do in
  -- between. In the end it does not listen, and its connection is what the decoder makes of these
  -- bytes: it has the echo of every complete message and no other byte in the output, the bytes of an
  -- incomplete message wait, and whatever comes in next is read; or it has ended, where the decoder
  -- refuses one of their headers.
  pub child-echoed :
      (n i : ℕ) (more : List (ℕ × Event)) (cs : List (Child ev)) (before after : List Event)
      (sent : Bytes)
      → i < n
      → run o (forked n) more ≡ some cs
      → events_of i more ≡ before ++ accepting (some fd) ∷ after
      → All Untaken before
      → fd ≤ fd_setsize
      → All (Brings fd) after
      → flatten (pieces fd after) ≡ sent
      → (c : Child ev) × (get_elem? cs i ≡ some c)
        × Serves (echoed [] (decode max_size header sent)) c
  child-echoed n i more cs before after sent inside ran events refusals h own bytes =
      let (c, found, alone) = run-alone o n i more cs inside ran in
      (
        c,
        found,
        subst (λ x. Serves (echoed [] (decode max_size header x)) c) bytes
            (subst (ServesAfter (echoed [] (decode max_size header (flatten (pieces fd after)))))
              (ap (child_run o (running true fresh)) (sym events) ∙ alone)
              (client_run before after refusals h own)),
      )

-- ===== src/PerfLibevent/Run.antt =====
-- The event loop of dev_examples/perf_libevent/server.cpp: what each client gets, whatever the others
-- do.
use native.Mathlib.Decide.{ℕ_discrete}
use test_code.Prelude.{
  ℕ, ◌≡◌, refl, sym, subst, ap, ◌∙◌, ◌≢◌, true, false, Option, none, some, List, [], ◌∷◌, arith,
  ◌==◌, if◌then◌else◌, Option-cases, inl, inr,
}
use test_code.Prelude.Map.{lookup, insert, lookup-insert_self, lookup-insert_ne}
use test_code.Wire.{Bytes, ByteOrder}
use test_code.Libevent.{Libevent, Channel, IsByteQueue}
use test_code.Framing.{decode}
use test_code.Framing.Echo.{Seen, open_at, ended, echoed, advance}
use test_code.PerfLibevent.{
  Globals, Called, returned, exited, max_size, readcb, errorcb, Server, do_accept, Event, accepting,
  arriving, failing, Process, alive, dead, after_read, arrive, step,
}
use test_code.PerfLibevent.Mode.{mode_of}
use test_code.PerfLibevent.Read.{readcb-echoed}
use test_code.PerfLibevent.Round.{see}
use test_code.PerfLibevent.Frame.{
  SameAt, readcb-SameAt, SmallAt, SmallAt-IsSmall, readcb-SmallAt, mode_of-SameAt, errorcb-SameAt,
  errorcb-SmallAt, do_accept-SameAt, do_accept-SmallAt, lookup-do_accept,
}

abbrev pub AllSmall : {ev : Libevent} → Server ev → Type 0
AllSmall s = (j : ℕ) → SmallAt j s.globals

-- Events that neither accept the descriptor anew nor report an error on it.
abbrev pub Spares : ℕ → Event → Type 0
Spares fd (accepting none) = Unit
Spares fd (accepting (some j)) = j ≢ fd
Spares fd (arriving j d) = Unit
Spares fd (failing j flags err) = j ≢ fd

-- The pieces that come in on the descriptor, in order.
abbrev pub pieces : ℕ → List Event → List Bytes
pieces fd [] = []
pieces fd (arriving j d ∷ es) = if j == fd then d ∷ pieces fd es else pieces fd es
pieces fd (accepting j ∷ es) = pieces fd es
pieces fd (failing j flags err ∷ es) = pieces fd es

-- What an event does to what is seen of the descriptor.
abbrev pub absorb : ℕ → Seen → Event → Seen
absorb fd v (arriving j d) = if j == fd then advance max_size v d else v
absorb fd v (accepting j) = v
absorb fd v (failing j flags err) = v

module _ {ev : Libevent} (q : IsByteQueue ev) (fd : ℕ) where
  abbrev pub seen_by : Globals → Option (Channel ev) → Option Seen
  seen_by g none = none
  seen_by g (some c) = some (open_at (mode_of g fd) (q.bytes c.input) (q.bytes c.output))

  -- What is left of the connection on `fd`; `none` where there is no bufferevent.
  abbrev pub seen_at : Server ev → Option Seen
  seen_at s = seen_by s.globals (lookup fd s.channels)

  seen_by-same :
      (g g' : Globals) (c : Option (Channel ev))
      → mode_of g' fd ≡ mode_of g fd
      → seen_by g' c ≡ seen_by g c
  seen_by-same g g' none e = refl
  seen_by-same g g' (some c) e = ap (λ m. some (open_at m (q.bytes c.input) (q.bytes c.output))) e

  seen_at-same :
      (s s' : Server ev) (v : Seen)
      → SameAt fd s.globals s'.globals
      → lookup fd s'.channels ≡ lookup fd s.channels
      → seen_at s ≡ some v
      → seen_at s' ≡ some v
  seen_at-same s s' v same e h =
      ap (seen_by s'.globals) e
      ∙ seen_by-same s.globals s'.globals (lookup fd s.channels)
          (mode_of-SameAt fd s.globals s'.globals same)
      ∙ h

  -- A process shows a connection as `v`; only `ended` is shown by one that is dead.
  abbrev pub Shows : Seen → Option (Process ev) → Type 0
  Shows v none = ⊥
  Shows v (some dead) = v ≡ ended
  Shows v (some (alive s)) = (seen_at s ≡ some v) × AllSmall s

  -- The connection of a bufferevent.
  abbrev pub shown : Server ev → Channel ev → Seen
  shown s c = open_at (mode_of s.globals fd) (q.bytes c.input) (q.bytes c.output)

  module _ (o : ByteOrder) where
    after_read-Shows :
        (s : Server ev) (c : Channel ev) (v : Seen) (r : Called ev)
        → AllSmall s
        → readcb ev o fd s.globals c ≡ some r
        → see q fd r ≡ v
        → Shows v (after_read o fd s (some r))
    after_read-Shows s c v exited small e seen = sym seen
    after_read-Shows s c v (returned g c') small e seen = (
      rw (lookup-insert_self fd c' s.channels) (ap some seen),
      λ j. readcb-SmallAt ev o fd j s.globals c (returned g c') (small j) e,
    )

    pub arrive-found :
        (s : Server ev) (c : Channel ev) (d : Bytes)
        → AllSmall s
        → Shows
            (advance max_size (shown s c) d)
            (after_read o fd s (readcb ev o fd s.globals (record c { input = ev.add c.input d })))
    arrive-found s c d small =
        let c' : Channel ev = record c { input = ev.add c.input d } in
        let (r, e, seen) =
          readcb-echoed q o fd s.globals c' (SmallAt-IsSmall fd s.globals (small fd)) in
        rw e (
          after_read-Shows s c' (advance max_size (shown s c) d) r small e (
            seen
            ∙ ap (λ bs. echoed (q.bytes c.output) (decode max_size (mode_of s.globals fd) bs))
                (q.add_lem c.input d)))

    pub arrive-own :
        (s : Server ev) (v : Seen) (d : Bytes)
        → AllSmall s
        → seen_at s ≡ some v
        → Shows (advance max_size v d) (arrive o fd d s)
    unfolding arrive
    arrive-own s v d small e = elim (Option-cases (lookup fd s.channels)) [
      | inl missing ↦ let e' = rw missing at e in cc
      | inr (c, found) ↦
          let e' : some (shown s c) ≡ some v = ap (seen_by s.globals) (sym found) ∙ e in
          let same : shown s c ≡ v = cc in
          rw (found, arrive)
            (subst
              (λ w. Shows (advance max_size w d) (
                after_read o fd s
                  (readcb ev o fd s.globals (record c { input = ev.add c.input d }))))
              same (arrive-found s c d small))
    ]

  -- A process that has not ended shows the connection as `v`.
  abbrev pub Keeps : Seen → Option (Process ev) → Type 0
  Keeps v none = ⊥
  Keeps v (some dead) = Unit
  Keeps v (some (alive s)) = (seen_at s ≡ some v) × AllSmall s

  module _ (o : ByteOrder) (j : ℕ) (other : j ≢ fd) where
    after_read-Keeps :
        (s : Server ev) (c : Channel ev) (v : Seen) (r : Called ev)
        → AllSmall s
        → seen_at s ≡ some v
        → readcb ev o j s.globals c ≡ some r
        → Keeps v (after_read o j s (some r))
    after_read-Keeps s c v exited small e er = tt
    after_read-Keeps s c v (returned g c') small e er = (
      seen_at-same s (record { globals = g; channels = insert j c' s.channels }) v
          (readcb-SameAt ev o j fd other s.globals c (returned g c') er)
          (lookup-insert_ne j fd c' s.channels other) e,
      λ k. readcb-SmallAt ev o j k s.globals c (returned g c') (small k) er,
    )

    arrive-other :
        (s : Server ev) (v : Seen) (d : Bytes)
        → AllSmall s
        → seen_at s ≡ some v
        → Keeps v (arrive o j d s)
    unfolding arrive
    arrive-other s v d small e = elim (Option-cases (lookup j s.channels)) [
      | inl missing ↦ rw (missing, arrive) (e, small)
      | inr (c, found) ↦
          let c' : Channel ev = record c { input = ev.add c.input d } in
          let (r, er, _) =
            readcb-echoed q o j s.globals c' (SmallAt-IsSmall j s.globals (small j)) in
          rw (found, arrive, er) (after_read-Keeps s c' v r small e er)
    ]

  Shows-Keeps : (v : Seen) (p : Option (Process ev)) → Shows v p → Keeps v p
  Shows-Keeps v none h = h
  Shows-Keeps v (some dead) h = tt
  Shows-Keeps v (some (alive s)) h = h

  module _ (o : ByteOrder) where
    pub step-Keeps :
        (s : Server ev) (v : Seen) (e : Event)
        → Spares fd e
        → AllSmall s
        → seen_at s ≡ some v
        → Keeps (absorb fd v e) (step o s e)
    unfolding step
    step-Keeps s v (accepting none) spares small e = unfold do_accept in (e, small)
    step-Keeps s v (accepting (some j)) spares small e = (
      seen_at-same s (do_accept (some j) s) v (do_accept-SameAt fd j spares s)
          (lookup-do_accept fd j spares s) e,
      λ k. do_accept-SmallAt s (some j) k (small k),
    )
    step-Keeps s v (failing j flags err) spares small e = (
      seen_at-same s (record s { globals = errorcb flags err j s.globals }) v
          (errorcb-SameAt fd j spares flags err s.globals) refl e,
      λ k. errorcb-SmallAt flags err j k s.globals (small k),
    )
    step-Keeps s v (arriving j d) spares small e = elim (ℕ_discrete j fd) [
      | yes own ↦
          let hit : (j == fd) ≡ true = ground arith in
          rw (hit, own) (Shows-Keeps _ _ (arrive-own o s v d small e))
      | no other ↦
          let miss : (j == fd) ≡ false = ground arith in
          rw miss (arrive-other o j other s v d small e)
    ]

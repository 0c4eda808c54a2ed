-- ===== src/MultiProcess/Alone.antt =====
-- A child of dev_examples/perf_libevent_multi_processes/server.cpp as a process of its own.
use test_code.Prelude.{
  ℕ, zero, suc, ◌≡◌, ◌≢◌, ◌<◌, refl, subst, ap, ◌∙◌, true, false, Option, none, some, List, [], ◌∷◌,
  if◌then◌else◌, get_elem?, ◌==◌, arith,
}
use test_code.Wire.{ByteOrder}
use test_code.Libevent.{Libevent}
use test_code.PerfLibevent.{Event}
use test_code.MultiProcess.{Child, running, fresh, forked, child_step, step_at, run}

-- The events of one child, in order.
unfoldable pub events_of : ℕ → List (ℕ × Event) → List Event
events_of i [] = []
events_of i ((j, e) ∷ more) = let rest = events_of i more in if i == j then e ∷ rest else rest

-- The events of child `i` if there is one for child `j` in front.
with_event : ℕ → ℕ → Event → List Event → List Event
with_event i j e es = if i == j then e ∷ es else es

with_event_own : (i : ℕ) (e : Event) (es : List Event) → with_event i i e es ≡ e ∷ es
unfolding with_event
with_event_own i e es = let own : (i == i) ≡ true = ground arith in rw own refl

with_event_other : (i j : ℕ) (e : Event) (es : List Event) → i ≢ j → with_event i j e es ≡ es
unfolding with_event
with_event_other i j e es h = let other : (i == j) ≡ false = ground arith in rw other refl

with_event-suc :
    (i j : ℕ) (e : Event) (es : List Event) → with_event (suc i) (suc j) e es ≡ with_event i j e es
unfolding with_event
with_event-suc i j e es = let same : (suc i == suc j) ≡ (i == j) = ground arith in rw same refl

module _ {ev : Libevent} (o : ByteOrder) where
  -- A child by itself.
  unfoldable pub child_run : Child ev → List Event → Option (Child ev)
  child_run c [] = some c
  child_run c (e ∷ es) = elim (child_step o e c) [ none ↦ none | some c' ↦ child_run c' es ]

  pub child_run-step :
      (e : Event) (c c' : Child ev) (es : List Event)
      → child_step o e c ≡ some c'
      → child_run c (e ∷ es) ≡ child_run c' es
  unfolding child_run
  child_run-step e c c' es h = rw (child_run, h) refl

  abbrev AtFollows : ℕ → ℕ → Event → Child ev → Option (List (Child ev)) → Type 0
  AtFollows i j e c none = Unit
  AtFollows i j e c (some cs) =
      (c' : Child ev) × (get_elem? cs i ≡ some c')
      × ((es : List Event) → child_run c (with_event i j e es) ≡ child_run c' es)

  step_at-AtFollows :
      (i j : ℕ) (e : Event) (c : Child ev) (cs : List (Child ev))
      → get_elem? cs i ≡ some c
      → AtFollows i j e c (step_at o j e cs)
  unfolding step_at
  step_at-AtFollows i j e c [] h = absurd cc
  step_at-AtFollows zero zero e c (x ∷ cs) h = go (child_step o e x) refl
    where
      go :
          (r : Option (Child ev))
          → child_step o e x ≡ r
          → AtFollows 0 0 e c (elim r [ none ↦ none | some c' ↦ some (c' ∷ cs) ])
      go none k = tt
      go (some c') k =
          let same : x ≡ c = cc in
          (
            c',
            refl,
            λ es.
                ap (child_run c) (with_event_own 0 e es)
                ∙ subst (λ y. child_run y (e ∷ es) ≡ child_run c' es) same
                    (child_run-step e x c' es k),
          )
  step_at-AtFollows (suc i) zero e c (x ∷ cs) h = go (child_step o e x)
    where
      go :
          (r : Option (Child ev))
          → AtFollows (suc i) 0 e c (elim r [ none ↦ none | some c' ↦ some (c' ∷ cs) ])
      go none = tt
      go (some c') = (
        c,
        h,
        λ es. ap (child_run c) (with_event_other (suc i) 0 e es (λ q. absurd (omega (arith, q)))),
      )
  step_at-AtFollows zero (suc j) e c (x ∷ cs) h = go (step_at o j e cs)
    where
      go :
          (r : Option (List (Child ev)))
          → AtFollows 0 (suc j) e c (elim r [ none ↦ none | some cs' ↦ some (x ∷ cs') ])
      go none = tt
      go (some cs') = (
        c,
        h,
        λ es. ap (child_run c) (with_event_other 0 (suc j) e es (λ q. absurd (omega (arith, q)))),
      )
  step_at-AtFollows (suc i) (suc j) e c (x ∷ cs) h =
      go (step_at o j e cs) (step_at-AtFollows i j e c cs h)
    where
      go :
          (r : Option (List (Child ev)))
          → AtFollows i j e c r
          → AtFollows (suc i) (suc j) e c (elim r [ none ↦ none | some cs' ↦ some (x ∷ cs') ])
      go none k = tt
      go (some cs') (c', found, k) =
          (c', found, λ es. ap (child_run c) (with_event-suc i j e es) ∙ k es)

  -- What is left of child `i` of one list in another, after these events.
  abbrev Alone : ℕ → Child ev → List (Child ev) → List Event → Type 0
  Alone i c cs es = (c' : Child ev) × (get_elem? cs i ≡ some c') × (child_run c es ≡ some c')

  run-Alone :
      (i : ℕ) (more : List (ℕ × Event)) (cs cs' : List (Child ev)) (c : Child ev)
      → get_elem? cs i ≡ some c
      → run o cs more ≡ some cs'
      → Alone i c cs' (events_of i more)
  unfolding run events_of with_event
  run-Alone i [] cs cs' c h e =
      let same : cs ≡ cs' = cc in
      (c, subst (λ x. get_elem? x i ≡ some c) same h, unfold child_run in refl)
  run-Alone i ((j, e) ∷ more) cs cs' c h ran =
      go (step_at o j e cs) (step_at-AtFollows i j e c cs h) ran
        (λ cs1 c1 h1 ran1. run-Alone i more cs1 cs' c1 h1 ran1)
    where
      go :
          (r : Option (List (Child ev)))
          → AtFollows i j e c r
          → (elim r [ none ↦ none | some cs1 ↦ run o cs1 more ]) ≡ some cs'
          → ((cs1 : List (Child ev)) (c1 : Child ev)
              → get_elem? cs1 i ≡ some c1
              → run o cs1 more ≡ some cs'
              → Alone i c1 cs' (events_of i more))
          → Alone i c cs' (with_event i j e (events_of i more))
      go none k q ih = absurd cc
      go (some cs1) (c1, found, k) q ih =
          let (c', found', all) = ih cs1 c1 found q in (c', found', k (events_of i more) ∙ all)

  get_elem?-forked :
      (n i : ℕ) → i < n → get_elem? (forked {ev = ev} n) i ≡ some (running true fresh)
  get_elem?-forked zero i h = absurd (omega arith)
  get_elem?-forked (suc n) zero h = refl
  get_elem?-forked (suc n) (suc i) h = get_elem?-forked n i (omega arith)

  -- However the children run, each of them is what it is by itself after its own events.
  pub run-alone :
      (n i : ℕ) (more : List (ℕ × Event)) (cs : List (Child ev))
      → i < n
      → run o (forked n) more ≡ some cs
      → (c : Child ev) × (get_elem? cs i ≡ some c)
        × (child_run (running true fresh) (events_of i more) ≡ some c)
  run-alone n i more cs h ran =
      run-Alone i more (forked n) cs (running true fresh) (get_elem?-forked n i h) ran

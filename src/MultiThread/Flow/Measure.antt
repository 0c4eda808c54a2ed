-- ===== src/MultiThread/Flow/Measure.antt =====
-- How many steps the threads of dev_examples/libevent_multithreads have still to take by themselves.
use test_code.Prelude.{
  ℕ, zero, suc, ◌+◌, ◌*◌, ◌≤◌, ◌<◌, ◌≡◌, refl, ap, some, List, [], ◌∷◌, arith, All, length,
  length-append, adjust, get_elem?, lt→ltb, Option-cases, inl, inr,
}
use test_code.Wire.{ByteOrder}
use test_code.Libevent.{Libevent}
use test_code.CfQueue.{CfQueue, IsFifo, take_one-items}
use test_code.MultiThread.Server.{
  Phase, idle, holding, notifying, MainThread, dispatching, delivering, State, Result, went,
  disabled, failed, Action, accepting, arriving, failing, notified, deliver, getting, putting,
  writing, answer, dispatch, deliver_one, get, put, write, on_main, act, run,
}
use test_code.MultiThread.Server.Runs.{Outcome}

-- The sum of what the elements come to.
unfoldable pub total : {A : Type 0} → (A → ℕ) → List A → ℕ
total f [] = 0
total f (x ∷ xs) = f x + total f xs

total-adjust :
    {A : Type 0} (f : A → ℕ) (g : A → A) (i : ℕ) (xs : List A) (x : A)
    → get_elem? xs i ≡ some x
    → total f (adjust i g xs) + f x ≡ total f xs + f (g x)
unfolding total
total-adjust f g i [] x h = absurd cc
total-adjust f g zero (y ∷ xs) x h = let same : y ≡ x = cc in rw same (omega arith)
total-adjust f g (suc i) (y ∷ xs) x h = omega (arith, total-adjust f g i xs x h)

total-adjust_suc :
    (i : ℕ) (xs : List ℕ) → total (λ n. n) (adjust i (λ n. n + 1) xs) ≤ total (λ n. n) xs + 1
unfolding total
total-adjust_suc i [] = omega arith
total-adjust_suc zero (y ∷ xs) = omega arith
total-adjust_suc (suc i) (y ∷ xs) = omega (arith, total-adjust_suc i xs)

-- A step that needs nothing from outside.
abbrev pub Own : Action → Type 0
Own (accepting fd) = ⊥
Own (arriving fd d) = ⊥
Own (failing fd) = ⊥
Own (notified i) = Unit
Own deliver = Unit
Own (getting i) = Unit
Own (putting i) = Unit
Own (writing i) = Unit

abbrev pub phase_weight : Phase → ℕ
phase_weight idle = 0
phase_weight (holding qe) = 5
phase_weight notifying = 3

abbrev pub main_weight : MainThread → ℕ
main_weight dispatching = 0
main_weight delivering = 1

abbrev pub queued : {cf : CfQueue} → IsFifo cf → cf.Queue → ℕ
queued fifo c = length (fifo.items c)

module _ {ev : Libevent} {cf : CfQueue} (fifo : IsFifo cf) where
  -- A message in the queue of a worker takes six steps, one in its hands five, and so on: to put the
  -- answer, to write to the pipe, to hear of it, to take the answer out and to find no more.
  unfoldable pub work : State ev cf → ℕ
  work s =
      6 * total (queued fifo) s.queues_input
      + total phase_weight s.workers
      + length (fifo.items s.queue_output)
      + 2 * total (λ n. n) s.pipes
      + main_weight s.main_thread

  module _ (o : ByteOrder) (threads : ℕ) (s : State ev cf) where
    abbrev Less : Result ev cf → Type 0
    Less = Outcome (λ s'. work s' < work s) Unit

    get-Less : (i : ℕ) → Less (get o threads i s)
    unfolding get work
    get-Less i = elim (Option-cases (get_elem? s.workers i)) [
      | inl out ↦ rw (out, get) tt
      | inr (holding qe, e) ↦ rw (e, get) tt
      | inr (notifying, e) ↦ rw (e, get) tt
      | inr (idle, e) ↦ elim (Option-cases (get_elem? s.queues_input i)) [
        | inl out ↦ rw (e, out, get) tt
        | inr (c, found) ↦ elim (Option-cases (cf.take_one c)) [
          | inl waits ↦ rw (e, found, waits, get) tt
          | inr ((qe, rest), taken) ↦
              rw (e, found, taken, get)
                (omega (
                  arith,
                  total-adjust (queued fifo) (λ _. rest) i s.queues_input c found,
                  total-adjust phase_weight (λ _. holding qe) i s.workers idle e,
                  ap length (take_one-items fifo c qe rest taken),
                ))
        ]
      ]
    ]

    put-Less : (i : ℕ) → Less (put o threads i s)
    unfolding put work
    put-Less i = elim (Option-cases (get_elem? s.workers i)) [
      | inl out ↦ rw (out, put) tt
      | inr (idle, e) ↦ rw (e, put) tt
      | inr (notifying, e) ↦ rw (e, put) tt
      | inr (holding qe, e) ↦
          rw (e, put)
            (omega (
              arith,
              total-adjust phase_weight (λ _. notifying) i s.workers (holding qe) e,
              ap length (fifo.items-put s.queue_output (answer o qe)),
              length-append (fifo.items s.queue_output) (answer o qe ∷ []),
            ))
    ]

    write-Less : (i : ℕ) → Less (write o threads i s)
    unfolding write work
    write-Less i = elim (Option-cases (get_elem? s.workers i)) [
      | inl out ↦ rw (out, write) tt
      | inr (idle, e) ↦ rw (e, write) tt
      | inr (holding qe, e) ↦ rw (e, write) tt
      | inr (notifying, e) ↦
          rw (e, write)
            (omega (
              arith,
              total-adjust phase_weight (λ _. idle) i s.workers notifying e,
              total-adjust_suc i s.pipes,
            ))
    ]

    dispatch-Less : (i : ℕ) → s.main_thread ≡ dispatching → Less (dispatch o threads (notified i) s)
    unfolding dispatch work
    dispatch-Less i e = elim (Option-cases (get_elem? s.pipes i)) [
      | inl out ↦ rw (out, dispatch) tt
      | inr (zero, found) ↦ rw (found, dispatch) tt
      | inr (suc n, found) ↦
          rw (found, lt→ltb 0 (suc n) (omega arith), e, dispatch)
            (omega
              (arith, total-adjust (λ n. n) (λ _. 0) i s.pipes (suc n) found, ap main_weight e))
    ]

    deliver-Less : s.main_thread ≡ delivering → Less (went (deliver_one o threads s))
    unfolding deliver_one work
    deliver-Less e = elim (Option-cases (cf.take_one s.queue_output)) [
      | inl empty ↦ rw (empty, deliver_one) (omega (arith, ap main_weight e))
      | inr ((ele, rest), taken) ↦
          rw (taken, deliver_one)
            (omega (arith, ap length (take_one-items fifo s.queue_output ele rest taken)))
    ]

    main-Less :
        (a : Action) (t : MainThread) → s.main_thread ≡ t → Own a → Less (on_main o threads a t s)
    unfolding dispatch
    main-Less (notified i) dispatching e own = dispatch-Less i e
    main-Less (notified i) delivering e own = tt
    main-Less deliver dispatching e own = tt
    main-Less deliver delivering e own = deliver-Less e
    main-Less (getting i) dispatching e own = tt
    main-Less (getting i) delivering e own = tt
    main-Less (putting i) dispatching e own = tt
    main-Less (putting i) delivering e own = tt
    main-Less (writing i) dispatching e own = tt
    main-Less (writing i) delivering e own = tt
    main-Less (accepting fd) t e own = absurd own
    main-Less (arriving fd d) t e own = absurd own
    main-Less (failing fd) t e own = absurd own

    pub act-Less : (a : Action) → Own a → Less (act o threads a s)
    unfolding act
    act-Less (getting i) own = get-Less i
    act-Less (putting i) own = put-Less i
    act-Less (writing i) own = write-Less i
    act-Less (notified i) own = main-Less (notified i) s.main_thread refl own
    act-Less deliver own = main-Less deliver s.main_thread refl own
    act-Less (accepting fd) own = absurd own
    act-Less (arriving fd d) own = absurd own
    act-Less (failing fd) own = absurd own

  -- A run of such steps takes no more of them than the work that there was.
  pub run-work :
      (o : ByteOrder) (threads : ℕ) (more : List Action) (s s' : State ev cf)
      → All Own more
      → run o threads s more ≡ went s'
      → length more + work s' ≤ work s
  unfolding run
  run-work o threads [] s s' own e = let same : s ≡ s' = cc in omega (arith, ap work same)
  run-work o threads (a ∷ more) s s' own e =
      go (act o threads a s) (act-Less o threads s a (own.0)) e
        (λ s1. run-work o threads more s1 s' (own.1))
    where
      go :
          (r : Result ev cf)
          → Outcome (λ s1. work s1 < work s) Unit r
          → (elim r [ went s1 ↦ run o threads s1 more | disabled ↦ disabled | failed ↦ failed ])
            ≡ went s'
          → ((s1 : State ev cf) → run o threads s1 more ≡ went s' → length more + work s' ≤ work s1)
          → suc (length more) + work s' ≤ work s
      go (went s1) less e' ih = omega (arith, less, ih s1 e')
      go disabled less e' ih = absurd cc
      go failed less e' ih = absurd cc

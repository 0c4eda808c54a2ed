-- ===== src/MultiThread/Flow/Keep.antt =====
-- Every action of the threads of dev_examples/libevent_multithreads can be taken without failing, and
-- keeps the messages with the workers that they belong to.
use native.Mathlib.Decide.{ℕ_discrete}
use test_code.Prelude.{
  ℕ, zero, suc, ◌<◌, ◌≡◌, refl, sym, subst, ◌∙◌, some, List, [], arith, lt→ltb, get_elem?, adjust,
  length-adjust, length-replicate, replicate, Option-cases, inl, inr,
}
use test_code.Prelude.Map.{lookup}
use test_code.Wire.{ByteOrder}
use test_code.Libevent.{Libevent, IsByteQueue}
use test_code.CfQueue.{CfQueue, QueueEle, IsFifo, take_one-items}
use test_code.MultiThread.Server.{
  Phase, idle, holding, notifying, MainThread, dispatching, delivering, State, Result, Action,
  accepting, arriving, failing, notified, deliver, getting, putting, writing, start, errorcb,
  dispatch, deliver_one, get, put, write, on_main, act, run,
}
use test_code.MultiThread.Server.Runs.{run-Outcome}
use test_code.MultiThread.Flow.{slot, held, backlog}
use test_code.MultiThread.Flow.Backlog.{backlog-get, backlog-phase, backlog-put, backlog-put_ne}
use test_code.MultiThread.Flow.Route.{
  erase-Small, acceptcb-Small, deliver_to-Small, Belongs, Good, GoodAfter, sessions-Good,
  arrive-Good,
}

module _ {ev : Libevent} {cf : CfQueue} (q : IsByteQueue ev) (fifo : IsFifo cf) (threads : ℕ)
    (some_threads : 0 < threads) (o : ByteOrder) where
  abbrev G : State ev cf → Type 0
  G = Good q fifo threads some_threads

  abbrev After : Result ev cf → Type 0
  After = GoodAfter q fifo threads some_threads

  module _ (s : State ev cf) (good : G s) where
    deliver_one-Good : G (deliver_one o threads s)
    unfolding deliver_one
    deliver_one-Good = elim (Option-cases (cf.take_one s.queue_output)) [
      | inl empty ↦
          rw (empty, deliver_one)
            record { room = good.room; crew = good.crew; small = good.small; routed = good.routed }
      | inr ((ele, rest), taken) ↦
          rw (taken, deliver_one)
            record {
              room = good.room;
              crew = good.crew;
              small = deliver_to-Small s.sessions good.small ele;
              routed = good.routed;
            }
    ]

    -- A worker that goes on with the same messages in its hands, whatever happens to the rest.
    phase-Good :
        (i : ℕ) (p p' : Phase) (out : cf.Queue) (pipes : List ℕ)
        → get_elem? s.workers i ≡ some p
        → held p ≡ held p'
        → G (record s { workers = adjust i (λ _. p') s.workers; queue_output = out; pipes = pipes })
    phase-Good i p p' out pipes e same = record {
      room = good.room;
      crew = length-adjust (λ _. p') i s.workers ∙ good.crew;
      small = good.small;
      routed = λ j.
          subst (Belongs q fifo threads some_threads j)
            (sym (backlog-phase fifo i j p p' s.workers s.queues_input e same)) (good.routed j);
    }

    get-Good : (i : ℕ) → After (get o threads i s)
    unfolding get
    get-Good i = elim (Option-cases (get_elem? s.workers i)) [
      | inl out ↦ rw (out, get) tt
      | inr (holding qe, e) ↦ rw (e, get) tt
      | inr (notifying, e) ↦ rw (e, get) tt
      | inr (idle, e) ↦ elim (Option-cases (get_elem? s.queues_input i)) [
        | inl out ↦ rw (e, out, get) tt
        | inr (c, found) ↦ elim (Option-cases (cf.take_one c)) [
          | inl waits ↦ rw (e, found, waits, get) tt
          | inr ((qe, rest), taken) ↦
              rw (e, found, taken, get)
                record {
                  room = length-adjust (λ _. rest) i s.queues_input ∙ good.room;
                  crew = length-adjust (λ _. holding qe) i s.workers ∙ good.crew;
                  small = good.small;
                  routed = λ j.
                      subst (Belongs q fifo threads some_threads j)
                        (sym (
                          backlog-get fifo i j qe c rest s.workers s.queues_input e found
                            (take_one-items fifo c qe rest taken)))
                        (good.routed j);
                }
        ]
      ]
    ]

    put-routed :
        (i j : ℕ) (qe : QueueEle)
        → get_elem? s.workers i ≡ some (holding qe)
        → Belongs q fifo threads some_threads j
            (backlog fifo j (adjust i (λ _. notifying) s.workers) s.queues_input)
    put-routed i j qe e = elim (ℕ_discrete i j) [
      | yes same ↦
          let e' : get_elem? s.workers j ≡ some (holding qe) = rw same at e in
          rw same (
            (subst (Belongs q fifo threads some_threads j)
              (backlog-put fifo j qe s.workers s.queues_input e') (good.routed j)).1)
      | no apart ↦
          subst (Belongs q fifo threads some_threads j)
            (sym (backlog-put_ne fifo i j notifying s.workers s.queues_input apart)) (good.routed j)
    ]

    put-Good : (i : ℕ) → After (put o threads i s)
    unfolding put
    put-Good i = elim (Option-cases (get_elem? s.workers i)) [
      | inl out ↦ rw (out, put) tt
      | inr (idle, e) ↦ rw (e, put) tt
      | inr (notifying, e) ↦ rw (e, put) tt
      | inr (holding qe, e) ↦
          rw (e, put)
            record {
              room = good.room;
              crew = length-adjust (λ _. notifying) i s.workers ∙ good.crew;
              small = good.small;
              routed = λ j. put-routed i j qe e;
            }
    ]

    write-Good : (i : ℕ) → After (write o threads i s)
    unfolding write
    write-Good i = elim (Option-cases (get_elem? s.workers i)) [
      | inl out ↦ rw (out, write) tt
      | inr (idle, e) ↦ rw (e, write) tt
      | inr (holding qe, e) ↦ rw (e, write) tt
      | inr (notifying, e) ↦ rw (e, write) (phase-Good i notifying idle _ _ e refl)
    ]

    dispatch-Good : (a : Action) → After (dispatch o threads a s)
    unfolding dispatch errorcb
    dispatch-Good (accepting fd) =
        sessions-Good q fifo threads some_threads s good _ (acceptcb-Small s.sessions good.small fd)
    dispatch-Good (arriving fd d) = arrive-Good q fifo threads some_threads s good o fd d
    dispatch-Good (failing fd) =
        sessions-Good q fifo threads some_threads s good _ (erase-Small s.sessions good.small fd)
    dispatch-Good (notified i) = elim (Option-cases (get_elem? s.pipes i)) [
      | inl out ↦ rw (out, dispatch) tt
      | inr (zero, e) ↦ rw (e, dispatch) tt
      | inr (suc n, e) ↦
          rw (e, lt→ltb 0 (suc n) (omega arith), dispatch)
            record { room = good.room; crew = good.crew; small = good.small; routed = good.routed }
    ]
    dispatch-Good deliver = tt
    dispatch-Good (getting i) = tt
    dispatch-Good (putting i) = tt
    dispatch-Good (writing i) = tt

    main-Good : (a : Action) (m : MainThread) → After (on_main o threads a m s)
    main-Good a dispatching = dispatch-Good a
    main-Good deliver delivering = deliver_one-Good
    main-Good a delivering = tt

    pub act-Good : (a : Action) → After (act o threads a s)
    unfolding act
    act-Good (getting i) = get-Good i
    act-Good (putting i) = put-Good i
    act-Good (writing i) = write-Good i
    act-Good (accepting fd) = main-Good (accepting fd) s.main_thread
    act-Good (arriving fd d) = main-Good (arriving fd d) s.main_thread
    act-Good (failing fd) = main-Good (failing fd) s.main_thread
    act-Good (notified i) = main-Good (notified i) s.main_thread
    act-Good deliver = main-Good deliver s.main_thread

  queued_at_start : (n i : ℕ) → slot fifo.items (get_elem? (replicate n cf.fresh) i) ≡ []
  queued_at_start zero i = refl
  queued_at_start (suc n) zero = fifo.items-fresh
  queued_at_start (suc n) (suc i) = queued_at_start n i

  held_at_start : (n i : ℕ) → slot held (get_elem? (replicate n idle) i) ≡ []
  held_at_start zero i = refl
  held_at_start (suc n) zero = refl
  held_at_start (suc n) (suc i) = held_at_start n i

  start-Good : G (start threads)
  unfolding start lookup backlog
  start-Good = record {
    room = length-replicate threads cf.fresh;
    crew = length-replicate threads idle;
    small = λ j si e. cc;
    routed = λ i. rw (queued_at_start threads i, held_at_start threads i) tt;
  }

  -- With at least one worker, whatever the threads do and in whatever order, no step goes through a
  -- null pointer or stays in the loop of `readcb`; and in every state that they get to there are as
  -- many workers and queues as threads_cnt says, the sizes of all sessions are within the limit, and a worker has, in its
  -- hands and in its queue, messages of those descriptors only that leave its index when divided by
  -- the number of workers.
  pub run-Good : (more : List Action) → After (run o threads (start threads) more)
  run-Good more = run-Outcome G ⊥ o threads act-Good more (start threads) start-Good

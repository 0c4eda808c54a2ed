-- ===== src/MultiThread/Server/Wake.antt =====
-- The hand-over of answers in dev_examples/libevent_multithreads: no answer is left in the output
-- queue without something that will make the event loop look at it.
use native.Mathlib.Decide.{ℕ_discrete}
use test_code.Prelude.{
  length-adjust, length-replicate, adjust, ℕ, zero, suc, ◌+◌, ◌≡◌, refl, sym, subst, ap, ◌∙◌, ◌≢◌,
  Option, none, some, List, [], ◌∷◌, arith, length, get_elem?, Option-cases, inl, inr, lt→ltb,
}
use test_code.Prelude.Map.{lookup}
use test_code.Wire.{Bytes, ByteOrder}
use test_code.Libevent.{Libevent}
use test_code.CfQueue.{CfQueue, QueueEle, IsFifo}
use test_code.MultiThread.Reader.{Called, returned, crashed}
use test_code.MultiThread.Server.{
  Phase, idle, holding, notifying, MainThread, dispatching, delivering, State, Result, went, Action,
  accepting, arriving, failing, notified, deliver, getting, putting, writing, start, after_read,
  arrive, dispatch, deliver_one, get, put, write, on_main, act, run,
}
use test_code.MultiThread.Server.Runs.{Outcome, run-Outcome}
use test_code.MultiThread.Server.Slots.{
  get_elem?-adjust, get_elem?-adjust_ne, get_elem?-same_length,
}

module _ {ev : Libevent} {cf : CfQueue} (fifo : IsFifo cf) where
  -- Either no answer is queued, or the event loop is taking answers out, or some worker is about to
  -- write to its pipe, or some pipe has a byte that will wake the event loop.
  pub data Woken (s : State ev cf) : Type 0 where
    drained : fifo.items s.queue_output ≡ [] → Woken s
    reading : s.main_thread ≡ delivering → Woken s
    about_to : (i : ℕ) → get_elem? s.workers i ≡ some notifying → Woken s
    written : (i n : ℕ) → get_elem? s.pipes i ≡ some (suc n) → Woken s

  -- Each worker has its pipe.
  pub record Wakes (s : State ev cf) : Type 0 where
    pub paired : length s.workers ≡ length s.pipes
    pub woken : Woken s

  abbrev pub WakesAfter : Result ev cf → Type 0
  WakesAfter = Outcome Wakes Unit

  start-Wakes : (threads_cnt : ℕ) → Wakes (start threads_cnt)
  unfolding start
  start-Wakes n = record {
    paired = length-replicate n idle ∙ sym (length-replicate n 0);
    woken = drained fifo.items-fresh;
  }

  -- An action that keeps the queue, the main thread, the pipes and the workers.
  sessions-Wakes :
      (s : State ev cf) (ss : _) (qs : List cf.Queue)
      → Wakes s
      → Wakes (record s { sessions = ss; queues_input = qs })
  sessions-Wakes s ss qs w = record { paired = w.paired; woken = go w.woken }
    where
      go : Woken s → Woken (record s { sessions = ss; queues_input = qs })
      go (drained e) = drained e
      go (reading e) = reading e
      go (about_to i e) = about_to i e
      go (written i n e) = written i n e

  module _ (o : ByteOrder) (threads : ℕ) (s : State ev cf) (w : Wakes s) where
    arrive-Wakes : (fd : ℕ) (d : Bytes) → WakesAfter (arrive o threads fd d s)
    unfolding arrive
    arrive-Wakes fd d = elim (Option-cases (lookup fd s.sessions)) [
      | inl missing ↦ rw (missing, arrive) w
      | inr (si, found) ↦ rw (found, arrive) (go _)
    ]
      where
        go : (r : Option (Called ev cf)) → WakesAfter (after_read o threads s r)
        go none = tt
        go (some crashed) = tt
        go (some (returned ss qs)) = sessions-Wakes s ss qs w

    deliver_one-Wakes : s.main_thread ≡ delivering → Wakes (deliver_one o threads s)
    unfolding deliver_one
    deliver_one-Wakes e = elim (Option-cases (cf.take_one s.queue_output)) [
      | inl none_left ↦
          rw (none_left, deliver_one)
            record {
              paired = w.paired;
              woken = drained (empty (fifo.items s.queue_output) refl none_left);
            }
      | inr ((ele, rest), taken) ↦
          rw (taken, deliver_one) record { paired = w.paired; woken = reading e }
    ]
      where
        empty :
            (xs : List QueueEle)
            → fifo.items s.queue_output ≡ xs
            → cf.take_one s.queue_output ≡ none
            → fifo.items s.queue_output ≡ []
        empty [] e' h = e'
        empty (x ∷ xs) e' h =
            let (c, some_left, _) = fifo.take-cons s.queue_output x xs e' in absurd cc

    -- A worker that is not about to write changes its phase to another one.
    phase-Woken :
        (i : ℕ) (p p' : Phase) (qs : List cf.Queue)
        → get_elem? s.workers i ≡ some p
        → p ≢ notifying
        → Woken (record s { queues_input = qs; workers = adjust i (λ _. p') s.workers })
    phase-Woken i p p' qs e other = go w.woken
      where
        go :
            Woken s → Woken (record s { queues_input = qs; workers = adjust i (λ _. p') s.workers })
        go (drained h) = drained h
        go (reading h) = reading h
        go (about_to j h) = elim (ℕ_discrete i j) [
          | yes same ↦ absurd (other (let e' : get_elem? s.workers j ≡ some p = rw same at e in cc))
          | no apart ↦ about_to j (get_elem?-adjust_ne (λ _. p') i j s.workers apart ∙ h)
        ]
        go (written j n h) = written j n h

    get-Wakes : (i : ℕ) → WakesAfter (get o threads i s)
    unfolding get
    get-Wakes i = elim (Option-cases (get_elem? s.workers i)) [
      | inl out ↦ rw (out, get) tt
      | inr (holding qe, e) ↦ rw (e, get) tt
      | inr (notifying, e) ↦ rw (e, get) tt
      | inr (idle, e) ↦ elim (Option-cases (get_elem? s.queues_input i)) [
        | inl out ↦ rw (e, out, get) tt
        | inr (c, found) ↦ elim (Option-cases (cf.take_one c)) [
          | inl waits ↦ rw (e, found, waits, get) tt
          | inr ((qe, rest), taken) ↦
              rw (e, found, taken, get)
                record {
                  paired = length-adjust (λ _. holding qe) i s.workers ∙ w.paired;
                  woken = phase-Woken i idle (holding qe) _ e (λ h. cc);
                }
        ]
      ]
    ]

    put-Wakes : (i : ℕ) → WakesAfter (put o threads i s)
    unfolding put
    put-Wakes i = elim (Option-cases (get_elem? s.workers i)) [
      | inl out ↦ rw (out, put) tt
      | inr (idle, e) ↦ rw (e, put) tt
      | inr (notifying, e) ↦ rw (e, put) tt
      | inr (holding qe, e) ↦
          rw (e, put)
            record {
              paired = length-adjust (λ _. notifying) i s.workers ∙ w.paired;
              woken = about_to i (get_elem?-adjust (λ _. notifying) i s.workers (holding qe) e);
            }
    ]

    write-Wakes : (i : ℕ) → WakesAfter (write o threads i s)
    unfolding write
    write-Wakes i = elim (Option-cases (get_elem? s.workers i)) [
      | inl out ↦ rw (out, write) tt
      | inr (idle, e) ↦ rw (e, write) tt
      | inr (holding qe, e) ↦ rw (e, write) tt
      | inr (notifying, e) ↦
          let (n, pipe) = get_elem?-same_length s.workers s.pipes i notifying w.paired e in
          rw (e, write)
            record {
              paired =
                  length-adjust (λ _. idle) i s.workers
                  ∙ w.paired
                  ∙ sym (length-adjust (λ n. n + 1) i s.pipes);
              woken =
                  written i n
                    (get_elem?-adjust (λ n. n + 1) i s.pipes n pipe ∙ ap some (omega arith));
            }
    ]

    notified-Wakes : (i : ℕ) → WakesAfter (dispatch o threads (notified i) s)
    unfolding dispatch
    notified-Wakes i = elim (Option-cases (get_elem? s.pipes i)) [
      | inl out ↦ rw (out, dispatch) tt
      | inr (zero, e) ↦ rw (e, dispatch) tt
      | inr (suc n, e) ↦
          rw (e, lt→ltb 0 (suc n) (omega arith), dispatch)
            record {
              paired = w.paired ∙ sym (length-adjust (λ _. 0) i s.pipes);
              woken = reading refl;
            }
    ]

    dispatch-Wakes : (a : Action) → WakesAfter (dispatch o threads a s)
    unfolding dispatch
    dispatch-Wakes (accepting fd) = sessions-Wakes s _ _ w
    dispatch-Wakes (arriving fd d) = arrive-Wakes fd d
    dispatch-Wakes (failing fd) = sessions-Wakes s _ _ w
    dispatch-Wakes (notified i) = notified-Wakes i
    dispatch-Wakes deliver = tt
    dispatch-Wakes (getting i) = tt
    dispatch-Wakes (putting i) = tt
    dispatch-Wakes (writing i) = tt

    main-Wakes :
        (a : Action) (m : MainThread) → s.main_thread ≡ m → WakesAfter (on_main o threads a m s)
    main-Wakes a dispatching e = dispatch-Wakes a
    main-Wakes deliver delivering e = deliver_one-Wakes e
    main-Wakes a delivering e = tt

    act-Wakes : (a : Action) → WakesAfter (act o threads a s)
    unfolding act
    act-Wakes (getting i) = get-Wakes i
    act-Wakes (putting i) = put-Wakes i
    act-Wakes (writing i) = write-Wakes i
    act-Wakes (accepting fd) = main-Wakes (accepting fd) s.main_thread refl
    act-Wakes (arriving fd d) = main-Wakes (arriving fd d) s.main_thread refl
    act-Wakes (failing fd) = main-Wakes (failing fd) s.main_thread refl
    act-Wakes (notified i) = main-Wakes (notified i) s.main_thread refl
    act-Wakes deliver = main-Wakes deliver s.main_thread refl

  -- Whatever state the threads get to from the one that `main` makes, by whatever steps in whatever
  -- order: either no answer is in the output queue, or the event loop is taking answers out, or some
  -- worker is about to write to its pipe, or some pipe has a byte that will wake the event loop.
  pub run-Woken :
      (o : ByteOrder) (threads : ℕ) (more : List Action) (s : State ev cf)
      → run o threads (start threads) more ≡ went s
      → Woken s
  run-Woken o threads more s e =
      (subst WakesAfter e (
        run-Outcome Wakes Unit o threads (act-Wakes o threads) more (start threads)
          (start-Wakes threads))).woken

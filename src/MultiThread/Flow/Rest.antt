-- ===== src/MultiThread/Flow/Rest.antt =====
-- The threads of dev_examples/libevent_multithreads at rest.
use test_code.Prelude.{
  ℕ, suc, ◌%◌, ◌^◌, ◌≤◌, ◌<◌, ◌≡◌, ◌≢◌, refl, sym, ap, ◌∙◌, none, some, List, [], ◌∷◌, ◌++◌, arith,
  All, flatten, length, append-nil, get_elem?, get_elem?-inside, lt→ltb,
}
use test_code.Prelude.Map.{lookup}
use test_code.Wire.{Bytes, ByteOrder}
use test_code.Libevent.{Libevent, IsByteQueue}
use test_code.CfQueue.{CfQueue, QueueEle, IsFifo}
use test_code.Framing.{encode_all, IsSendable}
use test_code.MultiThread.Reader.{Session, size_limit}
use test_code.MultiThread.Server.{
  fd_setsize, Phase, idle, holding, notifying, MainThread, dispatching, delivering, State, went,
  disabled, Action, accepting, notified, deliver, getting, putting, writing, start, dispatch, get,
  put, write, on_main, act, run,
}
use test_code.MultiThread.Server.Wake.{Woken, drained, reading, about_to, written, run-Woken}
use test_code.MultiThread.Server.Runs.{run_append}
use test_code.MultiThread.Flow.{of_fd, backlog, in_flight}
use test_code.MultiThread.Flow.Route.{Good}
use test_code.MultiThread.Flow.Track.{on_way}
use test_code.MultiThread.Flow.Order.{Spares, pieces}
use test_code.MultiThread.Flow.Answer.{reachable-Good, sent_in_order}

module _ {ev : Libevent} {cf : CfQueue} (o : ByteOrder) (threads : ℕ) where
  -- No thread has a step that needs nothing from outside: no worker can go on, no pipe has a byte for
  -- the event loop, and the event loop is not taking answers out.
  pub record AtRest (s : State ev cf) : Type 0 where
    pub no_get : (i : ℕ) → act o threads (getting i) s ≡ disabled
    pub no_put : (i : ℕ) → act o threads (putting i) s ≡ disabled
    pub no_write : (i : ℕ) → act o threads (writing i) s ≡ disabled
    pub no_notice : (i : ℕ) → act o threads (notified i) s ≡ disabled
    pub no_delivery : act o threads deliver s ≡ disabled

  module _ (s : State ev cf) (rest : AtRest s) where
    loop_waits : s.main_thread ≡ dispatching
    unfolding act
    loop_waits = go s.main_thread refl rest.no_delivery
      where
        go :
            (t : MainThread)
            → s.main_thread ≡ t
            → on_main o threads deliver t s ≡ disabled
            → s.main_thread ≡ dispatching
        go dispatching e h = e
        go delivering e h = absurd cc

    workers_wait : (i : ℕ) (p : Phase) → get_elem? s.workers i ≡ some p → p ≡ idle
    unfolding act put write
    workers_wait i idle e = refl
    workers_wait i (holding qe) e = absurd (let h = rw (e, put) at (rest.no_put i) in cc)
    workers_wait i notifying e = absurd (let h = rw (e, write) at (rest.no_write i) in cc)

    pipes_empty : (i n : ℕ) → get_elem? s.pipes i ≢ some (suc n)
    unfolding act dispatch
    pipes_empty i n e =
        let h =
          rw (loop_waits, e, lt→ltb 0 (suc n) (omega arith), dispatch) at (rest.no_notice i) in
        cc

    queues_empty :
        (fifo : IsFifo cf) (i : ℕ) (c : cf.Queue)
        → get_elem? s.workers i ≡ some idle
        → get_elem? s.queues_input i ≡ some c
        → fifo.items c ≡ []
    unfolding act get
    queues_empty fifo i c e found = go (fifo.items c) refl
      where
        go : (xs : List QueueEle) → fifo.items c ≡ xs → fifo.items c ≡ []
        go [] eq = eq
        go (x ∷ xs) eq =
            let (c', taken, _) = fifo.take-cons c x xs eq in
            absurd (let h = rw (e, found, taken, get) at (rest.no_get i) in cc)

    answers_taken : (fifo : IsFifo cf) → Woken fifo s → fifo.items s.queue_output ≡ []
    answers_taken fifo (drained e) = e
    answers_taken fifo (reading e) = absurd (let h = sym loop_waits ∙ e in cc)
    answers_taken fifo (about_to i e) = absurd (let h = workers_wait i notifying e in cc)
    answers_taken fifo (written i n e) = absurd (pipes_empty i n e)

    module _ (q : IsByteQueue ev) (fifo : IsFifo cf) (some_threads : 0 < threads)
        (good : Good q fifo threads some_threads s) where
      backlog_empty : (i : ℕ) → i < threads → backlog fifo i s.workers s.queues_input ≡ []
      unfolding backlog
      backlog_empty i h =
          let (p, e) = get_elem?-inside s.workers i (omega (arith, good.crew)) in
          let (c, found) = get_elem?-inside s.queues_input i (omega (arith, good.room)) in
          let idle_i : get_elem? s.workers i ≡ some idle = e ∙ ap some (workers_wait i p e) in
          rw (idle_i, found) (queues_empty fifo i c idle_i found)

      pub nothing_on_way : (fd : ℕ) → Woken fifo s → on_way q fifo threads fd s ≡ []
      unfolding in_flight of_fd encode_all
      nothing_on_way fd woken =
          rw (answers_taken fifo woken, backlog_empty (fd % threads) (omega (arith, some_threads)))
            refl

module _ {ev : Libevent} {cf : CfQueue} (q : IsByteQueue ev) (fifo : IsFifo cf) (threads fd : ℕ)
    (some_threads : 0 < threads) (o : ByteOrder) where
  -- In any state that the threads can get to, a client is accepted under a descriptor without a
  -- session, and sends messages of 1 to 1024000 bytes, fewer than 2 ^ 31 bytes in all, in pieces of any
  -- sizes and between any steps of the workers, of the event loop and of other clients, except that
  -- its own connection does not fail. If this leads to a state where no thread has a step that needs
  -- nothing from outside, then its output holds these messages, each behind its length, in order, and
  -- in front of them only what was on its way to the descriptor before it was accepted.
  pub answered-AtRest :
      (before more : List Action) (s s' : State ev cf) (ps : List Bytes)
      → run o threads (start threads) before ≡ went s
      → lookup fd s.sessions ≡ none
      → fd ≤ fd_setsize
      → All (Spares fd) more
      → All (IsSendable size_limit) ps
      → flatten (pieces fd more) ≡ encode_all ps
      → length (encode_all ps) < 2 ^ 31
      → run o threads s (accepting (some fd) ∷ more) ≡ went s'
      → AtRest o threads s'
      → (si : Session ev) × (lookup fd s'.sessions ≡ some si)
        × (q.bytes si.bev.output ≡ on_way q fifo threads fd s ++ encode_all ps)
  answered-AtRest before more s s' ps reached missing fits spares sendable bytes short ends rest =
      let (si, found, _, _, sent) =
        sent_in_order q fifo threads fd some_threads o before more s s' ps reached missing fits
          spares sendable bytes short ends in
      let all =
        run_append o threads before (accepting (some fd) ∷ more) (start threads) s reached ∙ ends in
      let quiet =
        nothing_on_way o threads s' rest q fifo some_threads
          (reachable-Good q fifo threads fd some_threads o (before ++ accepting (some fd) ∷ more) s'
            all)
          fd (run-Woken fifo o threads (before ++ accepting (some fd) ∷ more) s' all) in
      (
        si,
        found,
        sym (ap (λ x. q.bytes si.bev.output ++ x) quiet ∙ append-nil (q.bytes si.bev.output))
            ∙ sent,
      )

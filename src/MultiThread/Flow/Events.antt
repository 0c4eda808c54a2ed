-- ===== src/MultiThread/Flow/Events.antt =====
-- The event loop of dev_examples/libevent_multithreads, as one connection sees it.
use native.Mathlib.Decide.{ℕ_discrete}
use test_code.Prelude.{
  ℕ, zero, suc, ◌%◌, ◌<◌, ◌≡◌, refl, sym, ap, ap₂, ◌∙◌, ◌≢◌, Option, none, some, List, ◌∷◌, arith,
  ltb, lt→ltb, get_elem?, length, append_assoc, Option-cases, Bool-cases, inl, inr,
}
use test_code.Prelude.Map.{lookup, insert, lookup-insert_self, lookup-insert_ne, lookup-erase}
use test_code.Wire.{Bytes, ByteOrder}
use test_code.Libevent.{Libevent, IsByteQueue}
use test_code.CfQueue.{CfQueue, QueueEle, IsFifo, take_one-items}
use test_code.Framing.Echo.{open_at}
use test_code.MultiThread.Reader.{Session}
use test_code.MultiThread.Reader.See.{session_mode, ele}
use test_code.MultiThread.Reader.Feed.{read_all-Fed}
use test_code.MultiThread.Server.{
  fd_setsize, MainThread, dispatching, delivering, State, Result, Action, accepting, arriving,
  failing, notified, deliver, getting, putting, writing, insert_new, acceptcb, errorcb, deliver_to,
  arrive, dispatch, deliver_one, on_main, act,
}
use test_code.MultiThread.Flow.{in_flight}
use test_code.MultiThread.Flow.Flight.{flight-put_all_others, flight-take, flight-take_other}
use test_code.MultiThread.Flow.Route.{Good, fed, arrive-went}
use test_code.MultiThread.Flow.Track.{
  Quiet, seen_by, on_way, seen_at, Same, get-Same, put-Same, write-Same,
}

module _ {ev : Libevent} (fd : ℕ) (ss : List (ℕ × Session ev)) (si : Session ev)
    (found : lookup fd ss ≡ some si) where
  lookup-insert_new : (j : ℕ) (new : Session ev) → lookup fd (insert_new j new ss) ≡ lookup fd ss
  unfolding insert_new
  lookup-insert_new j new = elim (Option-cases (lookup j ss)) [
    | inr (old, taken) ↦ rw (taken, insert_new) refl
    | inl missing ↦
        let apart : j ≢ fd = λ e. let missing' : lookup fd ss ≡ none = rw e at missing in cc in
        rw (missing, insert_new) (lookup-insert_ne j fd new ss apart)
  ]

  lookup-acceptcb : (j : Option ℕ) → lookup fd (acceptcb j ss) ≡ lookup fd ss
  unfolding acceptcb
  lookup-acceptcb none = refl
  lookup-acceptcb (some j) = elim (Bool-cases (ltb fd_setsize j)) [
    | inl large ↦ rw (large, acceptcb) refl
    | inr fits ↦ rw (fits, acceptcb) (lookup-insert_new j _)
  ]

  lookup-deliver_to : (e : QueueEle) → e.fd ≢ fd → lookup fd (deliver_to e ss) ≡ lookup fd ss
  unfolding deliver_to
  lookup-deliver_to e other = elim (Option-cases (lookup e.fd ss)) [
    | inl missing ↦ rw (missing, deliver_to) refl
    | inr (sj, there) ↦ rw (there, deliver_to) (lookup-insert_ne e.fd fd _ ss other)
  ]

  delivered : QueueEle → Session ev
  delivered e = record si { bev = record (si.bev) { output = ev.add (si.bev).output e.payload } }

  lookup-deliver_own : (e : QueueEle) → e.fd ≡ fd → lookup fd (deliver_to e ss) ≡ some (delivered e)
  unfolding deliver_to delivered
  lookup-deliver_own e own =
      let found' : lookup e.fd ss ≡ some si = rw own found in
      rw (found', deliver_to, own) (lookup-insert_self fd _ ss)

module _ {ev : Libevent} {cf : CfQueue} (q : IsByteQueue ev) (fifo : IsFifo cf) (threads fd : ℕ)
    (some_threads : 0 < threads) (s : State ev cf) (good : Good q fifo threads some_threads s)
    (si : Session ev) (found : lookup fd s.sessions ≡ some si) where
  abbrev S : Result ev cf → Type 0
  S = Same q fifo threads fd some_threads s good si found

  -- An answer that is taken out of the queue for the descriptor is in the output of its session.
  deliver-own :
      (e : QueueEle) (rest : cf.Queue)
      → fifo.items s.queue_output ≡ e ∷ fifo.items rest
      → e.fd ≡ fd
      → seen_by q fifo threads fd
          (lookup fd (deliver_to e s.sessions))
          (in_flight fifo fd (fd % threads) s.workers s.queues_input rest)
        ≡ seen_at q fifo threads fd s
  unfolding delivered session_mode
  deliver-own e rest taken own =
      let flight =
        flight-take fifo fd (fd % threads) e s.workers s.queues_input s.queue_output rest taken
          own in
      rw
        (
          found,
          lookup-deliver_own fd s.sessions si found e own,
          q.add_lem si.bev.output e.payload,
          flight,
        )
        (ap (λ bs. some (open_at (session_mode si) (q.bytes si.bev.input) bs))
          (append_assoc (q.bytes si.bev.output) e.payload _))

  deliver_one-Same :
      (o : ByteOrder)
      → seen_at q fifo threads fd (deliver_one o threads s) ≡ seen_at q fifo threads fd s
  unfolding deliver_one
  deliver_one-Same o = elim (Option-cases (cf.take_one s.queue_output)) [
    | inl empty ↦ rw (empty, deliver_one) refl
    | inr ((ele, rest), first) ↦
        let taken = take_one-items fifo s.queue_output ele rest first in
        rw (first, deliver_one)
          (elim (ℕ_discrete ele.fd fd) [
            | yes own ↦ deliver-own ele rest taken own
            | no other ↦
                ap₂ (seen_by q fifo threads fd) (lookup-deliver_to fd s.sessions si found ele other)
                  (sym (
                    flight-take_other fifo fd (fd % threads) ele s.workers s.queues_input
                      s.queue_output rest taken other))
          ])
  ]

  arrive-Same : (o : ByteOrder) (j : ℕ) (d : Bytes) → j ≢ fd → S (arrive o threads j d s)
  unfolding arrive
  arrive-Same o j d other = elim (Option-cases (lookup j s.sessions)) [
    | inl missing ↦ rw (missing, arrive) refl
    | inr (sj, there) ↦
        let (r, returns, e) = arrive-went q o threads j d s sj there in
        let f =
          read_all-Fed q o threads j (fed sj d) s.queues_input r (good.small j sj there) returns in
        let inside : j % threads < length s.queues_input = omega (arith, good.room, some_threads) in
        rw (e, f.queues_eq)
          (ap₂ (seen_by q fifo threads fd)
            (lookup-insert_ne j fd r.session (insert j (fed sj d) s.sessions) other
              ∙ lookup-insert_ne j fd (fed sj d) s.sessions other)
            (flight-put_all_others fifo fd (fd % threads) (j % threads) j f.es s.workers
              s.queues_input s.queue_output inside other f.own))
  ]

  dispatch-Same : (o : ByteOrder) (a : Action) → Quiet fd a → S (dispatch o threads a s)
  unfolding dispatch errorcb
  dispatch-Same o (accepting j) quiet =
      ap (λ x. seen_by q fifo threads fd x (on_way q fifo threads fd s))
        (lookup-acceptcb fd s.sessions si found j)
  dispatch-Same o (arriving j d) quiet = arrive-Same o j d quiet
  dispatch-Same o (failing j) quiet =
      ap (λ x. seen_by q fifo threads fd x (on_way q fifo threads fd s))
        (ground (arith, lookup-erase j fd s.sessions))
  dispatch-Same o (notified i) quiet = elim (Option-cases (get_elem? s.pipes i)) [
    | inl out ↦ rw (out, dispatch) tt
    | inr (zero, e) ↦ rw (e, dispatch) tt
    | inr (suc n, e) ↦ rw (e, lt→ltb 0 (suc n) (omega arith), dispatch) refl
  ]
  dispatch-Same o deliver quiet = tt
  dispatch-Same o (getting i) quiet = tt
  dispatch-Same o (putting i) quiet = tt
  dispatch-Same o (writing i) quiet = tt

  main-Same :
      (o : ByteOrder) (a : Action) (m : MainThread) → Quiet fd a → S (on_main o threads a m s)
  main-Same o a dispatching quiet = dispatch-Same o a quiet
  main-Same o deliver delivering quiet = deliver_one-Same o
  main-Same o a delivering quiet = tt

  -- An action that does not bring anything in on a connection, and does not close it, changes nothing
  -- of what is seen of it.
  pub act-Same : (o : ByteOrder) (a : Action) → Quiet fd a → S (act o threads a s)
  unfolding act
  act-Same o (getting i) quiet = get-Same q fifo threads fd some_threads s good si found o i
  act-Same o (putting i) quiet = put-Same q fifo threads fd some_threads s good si found o i
  act-Same o (writing i) quiet = write-Same q fifo threads fd some_threads s good si found o i
  act-Same o (accepting j) quiet = main-Same o (accepting j) s.main_thread quiet
  act-Same o (arriving j d) quiet = main-Same o (arriving j d) s.main_thread quiet
  act-Same o (failing j) quiet = main-Same o (failing j) s.main_thread quiet
  act-Same o (notified i) quiet = main-Same o (notified i) s.main_thread quiet
  act-Same o deliver quiet = main-Same o deliver s.main_thread quiet

-- ===== src/MultiThread/Flow/Track.antt =====
-- One connection of dev_examples/libevent_multithreads while the threads run: the decoder's mode, the
-- unread bytes, and what has been or will be sent.
use test_code.Prelude.{
  ℕ, ◌%◌, ◌<◌, ◌≡◌, refl, sym, subst, ap, ◌∙◌, ◌≢◌, Option, none, some, ◌++◌, All, get_elem?,
  Option-cases, inl, inr,
}
use test_code.Prelude.Map.{lookup}
use test_code.Wire.{Bytes, ByteOrder}
use test_code.Libevent.{Libevent, IsByteQueue}
use test_code.CfQueue.{CfQueue, QueueEle, IsFifo, take_one-items}
use test_code.Framing.Echo.{Seen, open_at}
use test_code.MultiThread.Reader.{Session}
use test_code.MultiThread.Reader.See.{session_mode}
use test_code.MultiThread.Server.{
  idle, holding, notifying, State, Result, Action, arriving, failing, get, put, write,
}
use test_code.MultiThread.Server.Runs.{Outcome}
use test_code.MultiThread.Flow.{in_flight}
use test_code.MultiThread.Flow.Backlog.{backlog-put}
use test_code.MultiThread.Flow.Flight.{flight-get, flight-phase, flight-put}
use test_code.MultiThread.Flow.Route.{Good}

-- An action that cannot close the connection of the descriptor and brings nothing in on it.
abbrev pub Quiet : ℕ → Action → Type 0
Quiet fd (arriving j d) = j ≢ fd
Quiet fd (failing j) = j ≢ fd
Quiet fd a = Unit

module _ {ev : Libevent} {cf : CfQueue} (q : IsByteQueue ev) (fifo : IsFifo cf)
    (threads fd : ℕ) where
  abbrev pub seen_by : Option (Session ev) → Bytes → Option Seen
  seen_by none on_way = none
  seen_by (some si) on_way =
      some (open_at (session_mode si) (q.bytes si.bev.input) (q.bytes si.bev.output ++ on_way))

  -- The bytes on their way to the descriptor.
  abbrev pub on_way : State ev cf → Bytes
  on_way s = in_flight fifo fd (fd % threads) s.workers s.queues_input s.queue_output

  -- The connection, with the bytes on their way counted to those that have been sent.
  abbrev pub seen_at : State ev cf → Option Seen
  seen_at s = seen_by (lookup fd s.sessions) (on_way s)

  module _ (some_threads : 0 < threads) (s : State ev cf)
      (good : Good q fifo threads some_threads s) (si : Session ev)
      (found : lookup fd s.sessions ≡ some si) where
    abbrev pub Same : Result ev cf → Type 0
    Same = Outcome (λ s'. seen_at s' ≡ seen_at s) Unit

    pub get-Same : (o : ByteOrder) (i : ℕ) → Same (get o threads i s)
    unfolding get
    get-Same o i = elim (Option-cases (get_elem? s.workers i)) [
      | inl out ↦ rw (out, get) tt
      | inr (holding qe, e) ↦ rw (e, get) tt
      | inr (notifying, e) ↦ rw (e, get) tt
      | inr (idle, e) ↦ elim (Option-cases (get_elem? s.queues_input i)) [
        | inl out ↦ rw (e, out, get) tt
        | inr (c, at_i) ↦ elim (Option-cases (cf.take_one c)) [
          | inl waits ↦ rw (e, at_i, waits, get) tt
          | inr ((qe, rest), taken) ↦
              rw (e, at_i, taken, get)
                (ap (seen_by (lookup fd s.sessions)) (
                  flight-get fifo fd (fd % threads) i qe c rest s.workers s.queues_input
                    s.queue_output e at_i (take_one-items fifo c qe rest taken)))
        ]
      ]
    ]

    pub put-Same : (o : ByteOrder) (i : ℕ) → Same (put o threads i s)
    unfolding put
    put-Same o i = elim (Option-cases (get_elem? s.workers i)) [
      | inl out ↦ rw (out, put) tt
      | inr (idle, e) ↦ rw (e, put) tt
      | inr (notifying, e) ↦ rw (e, put) tt
      | inr (holding qe, e) ↦
          let mine : qe.fd % threads ≡ i =
            (subst (λ b. All (λ (x : QueueEle). x.fd % threads ≡ i) b)
              (backlog-put fifo i qe s.workers s.queues_input e) (good.routed i)).0 in
          rw (e, put)
            (ap (seen_by (lookup fd s.sessions)) (
              flight-put fifo fd (fd % threads) o i qe s.workers s.queues_input s.queue_output e
                (λ own. sym mine ∙ ap (λ n. n % threads) own)))
    ]

    pub write-Same : (o : ByteOrder) (i : ℕ) → Same (write o threads i s)
    unfolding write
    write-Same o i = elim (Option-cases (get_elem? s.workers i)) [
      | inl out ↦ rw (out, write) tt
      | inr (idle, e) ↦ rw (e, write) tt
      | inr (holding qe, e) ↦ rw (e, write) tt
      | inr (notifying, e) ↦
          rw (e, write)
            (ap (seen_by (lookup fd s.sessions)) (
              flight-phase fifo fd (fd % threads) i notifying idle s.workers s.queues_input
                s.queue_output e refl))
    ]

-- ===== src/MultiThread/Flow/Route.antt =====
-- Which worker has which messages in dev_examples/libevent_multithreads.
use native.Mathlib.Decide.{ℕ_discrete}
use test_code.Prelude.{
  ℕ, ◌%◌, ◌≤◌, ◌<◌, ◌≡◌, refl, sym, subst, ap, ◌∙◌, Option, none, some, List, [], ◌∷◌, arith, All,
  All-append, ltb, length, Option-cases, Bool-cases, inl, inr,
}
use test_code.Prelude.Map.{lookup, insert, erase, lookup-insert, lookup-insert_self, lookup-erase}
use test_code.Wire.{Bytes, ByteOrder}
use test_code.Libevent.{Libevent, IsByteQueue}
use test_code.CfQueue.{CfQueue, QueueEle, IsFifo}
use test_code.MultiThread.Reader.{Session, new_session, size_limit, Reading, readcb, read_all}
use test_code.MultiThread.Reader.See.{put_all}
use test_code.MultiThread.Reader.Feed.{read_all-some, read_all-Fed}
use test_code.MultiThread.Server.{
  fd_setsize, State, Result, went, insert_new, acceptcb, deliver_to, arrive,
}
use test_code.MultiThread.Server.Runs.{Outcome}
use test_code.MultiThread.Flow.{backlog}
use test_code.MultiThread.Flow.Backlog.{length-put_all, backlog-put_all, backlog-put_all_ne}

-- The sizes of all sessions have passed the test of `readcb`.
abbrev pub Small : {ev : Libevent} → List (ℕ × Session ev) → Type 0
Small {ev} ss = (j : ℕ) (si : Session ev) → lookup j ss ≡ some si → si.body_size ≤ size_limit

module _ {ev : Libevent} (ss : List (ℕ × Session ev)) (small : Small ss) where
  pub insert-Small : (k : ℕ) (si : Session ev) → si.body_size ≤ size_limit → Small (insert k si ss)
  insert-Small k si h j si' e = ground (arith, lookup-insert k j si ss, small j si')

  pub erase-Small : (k : ℕ) → Small (erase k ss)
  erase-Small k j si' e = ground (arith, lookup-erase k j ss, small j si')

  insert_new-Small :
      (fd : ℕ) (si : Session ev) → si.body_size ≤ size_limit → Small (insert_new fd si ss)
  unfolding insert_new
  insert_new-Small fd si h = elim (Option-cases (lookup fd ss)) [
    | inl missing ↦ rw (missing, insert_new) (insert-Small fd si h)
    | inr (old, found) ↦ rw (found, insert_new) small
  ]

  pub acceptcb-Small : (fd : Option ℕ) → Small (acceptcb fd ss)
  unfolding acceptcb new_session
  acceptcb-Small none = small
  acceptcb-Small (some fd) = elim (Bool-cases (ltb fd_setsize fd)) [
    | inl large ↦ rw (large, acceptcb) small
    | inr fits ↦ rw (fits, acceptcb) (insert_new-Small fd _ (omega arith))
  ]

  pub deliver_to-Small : (e : QueueEle) → Small (deliver_to e ss)
  unfolding deliver_to
  deliver_to-Small e = elim (Option-cases (lookup e.fd ss)) [
    | inl missing ↦ rw (missing, deliver_to) small
    | inr (si, found) ↦ rw (found, deliver_to) (insert-Small e.fd _ (small e.fd si found))
  ]

-- The session of a descriptor with bytes that have come in.
abbrev pub fed : {ev : Libevent} → Session ev → Bytes → Session ev
fed {ev} si d = record si { bev = record (si.bev) { input = ev.add (si.bev).input d } }

module _ {ev : Libevent} {cf : CfQueue} (q : IsByteQueue ev) (o : ByteOrder) (threads : ℕ) where
  -- What bytes for a descriptor that has a session lead to.
  pub arrive-went :
      (fd : ℕ) (d : Bytes) (s : State ev cf) (si : Session ev)
      → lookup fd s.sessions ≡ some si
      → (r : Reading ev cf) × (read_all ev cf o threads fd (fed si d) s.queues_input ≡ some r)
        × (arrive o threads fd d s
            ≡ went (record s {
              sessions = insert fd r.session (insert fd (fed si d) s.sessions);
              queues_input = r.queues;
            }))
  unfolding arrive readcb
  arrive-went fd d s si found =
      let (r, e) = read_all-some q o threads fd (fed si d) s.queues_input in
      (r, e, rw (found, arrive, lookup-insert_self fd (fed si d) s.sessions, readcb, e) refl)

module _ {ev : Libevent} {cf : CfQueue} (q : IsByteQueue ev) (fifo : IsFifo cf) (threads : ℕ)
    (some_threads : 0 < threads) where
  abbrev pub Belongs : ℕ → List QueueEle → Type 0
  Belongs i es = All (λ (e : QueueEle). e.fd % threads ≡ i) es

  -- There are as many queues and workers as there should be; the sizes are within the limit; and the messages that a worker
  -- has are those of its descriptors.
  pub record Good (s : State ev cf) : Type 0 where
    pub room : length s.queues_input ≡ threads
    pub crew : length s.workers ≡ threads
    pub small : Small s.sessions
    pub routed : (i : ℕ) → Belongs i (backlog fifo i s.workers s.queues_input)

  -- The process does not fail, and the state after the action is good.
  abbrev pub GoodAfter : Result ev cf → Type 0
  GoodAfter = Outcome Good ⊥

  own-Belongs :
      (fd : ℕ) (es : List QueueEle)
      → All (λ (e : QueueEle). e.fd ≡ fd) es
      → Belongs (fd % threads) es
  own-Belongs fd [] h = tt
  own-Belongs fd (e ∷ es) (h, hs) = (ap (λ n. n % threads) h, own-Belongs fd es hs)

  module _ (s : State ev cf) (good : Good s) where
    pub sessions-Good : (ss : List (ℕ × Session ev)) → Small ss → Good (record s { sessions = ss })
    sessions-Good ss small = record {
      room = good.room;
      crew = good.crew;
      small = small;
      routed = good.routed;
    }

    fed-Good :
        (fd : ℕ) (ss : List (ℕ × Session ev)) (es : List QueueEle)
        → Small ss
        → All (λ (e : QueueEle). e.fd ≡ fd) es
        → Good
            (record s { sessions = ss; queues_input = put_all cf (fd % threads) es s.queues_input })
    fed-Good fd ss es small own = record {
      room = length-put_all fifo (fd % threads) es s.queues_input ∙ good.room;
      crew = good.crew;
      small = small;
      routed = routed;
    }
      where
        inside : fd % threads < length s.queues_input
        inside = omega (arith, good.room, some_threads)

        routed :
            (i : ℕ)
            → Belongs i (backlog fifo i s.workers (put_all cf (fd % threads) es s.queues_input))
        routed i = elim (ℕ_discrete (fd % threads) i) [
          | yes same ↦
              subst
                (λ j.
                  Belongs j
                    (backlog fifo j s.workers (put_all cf (fd % threads) es s.queues_input)))
                same
                (subst (Belongs (fd % threads))
                  (sym (backlog-put_all fifo (fd % threads) es s.workers s.queues_input inside))
                  (All-append (λ (e : QueueEle). e.fd % threads ≡ fd % threads)
                    (backlog fifo (fd % threads) s.workers s.queues_input) es
                    (good.routed (fd % threads)) (own-Belongs fd es own)))
          | no apart ↦
              subst (Belongs i)
                (sym (backlog-put_all_ne fifo (fd % threads) i es s.workers s.queues_input apart))
                (good.routed i)
        ]

    pub arrive-Good : (o : ByteOrder) (fd : ℕ) (d : Bytes) → GoodAfter (arrive o threads fd d s)
    unfolding arrive
    arrive-Good o fd d = elim (Option-cases (lookup fd s.sessions)) [
      | inl missing ↦ rw (missing, arrive) good
      | inr (si, found) ↦
          let (r, returns, e) = arrive-went q o threads fd d s si found in
          let size = good.small fd si found in
          let f = read_all-Fed q o threads fd (fed si d) s.queues_input r size returns in
          rw (e, f.queues_eq)
            (fed-Good fd (insert fd r.session (insert fd (fed si d) s.sessions)) f.es
              (insert-Small (insert fd (fed si d) s.sessions)
                (insert-Small s.sessions good.small fd (fed si d) size) fd r.session f.small)
              f.own)
    ]

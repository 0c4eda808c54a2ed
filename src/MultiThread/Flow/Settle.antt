-- ===== src/MultiThread/Flow/Settle.antt =====
-- The threads of dev_examples/libevent_multithreads come to rest, and every message is answered by then.
use test_code.Prelude.{
  ℕ, zero, suc, ◌<◌, ◌≡◌, refl, subst, List, [], ◌∷◌, arith, All, length, ◌⊎◌, inl, inr,
}
use test_code.Wire.{ByteOrder}
use test_code.Libevent.{Libevent, IsByteQueue}
use test_code.CfQueue.{CfQueue, IsFifo}
use test_code.MultiThread.Server.{
  State, Result, went, disabled, failed, Action, notified, deliver, getting, putting, writing, act,
  run,
}
use test_code.MultiThread.Server.Runs.{Outcome}
use test_code.MultiThread.Flow.Route.{Good, GoodAfter}
use test_code.MultiThread.Flow.Keep.{act-Good}
use test_code.MultiThread.Flow.Rest.{AtRest}
use test_code.MultiThread.Flow.Search.{Takes, taken_or_not, search_all, no_worker, no_pipe}
use test_code.MultiThread.Flow.Measure.{Own, work, act-Less}

module _ {ev : Libevent} {cf : CfQueue} (q : IsByteQueue ev) (fifo : IsFifo cf) (threads : ℕ)
    (some_threads : 0 < threads) (o : ByteOrder) where
  act-returns :
      (s : State ev cf) (a : Action)
      → Good q fifo threads some_threads s
      → Outcome (λ s'. Unit) ⊥ (act o threads a s)
  act-returns s a good = go (act o threads a s) (act-Good q fifo threads some_threads o s good a)
    where
      go : (r : Result ev cf) → GoodAfter q fifo threads some_threads r → Outcome (λ s'. Unit) ⊥ r
      go (went s') h = tt
      go disabled h = tt
      go failed h = h

  -- Some thread can take a step by itself, or all are at rest.
  next :
      (s : State ev cf)
      → Good q fifo threads some_threads s
      → ((a : Action) × Own a × Takes o threads s a) ⊎ AtRest o threads s
  next s good =
      let returns : (a : Action) → Outcome (λ s'. Unit) ⊥ (act o threads a s) =
        λ a. act-returns s a good in
      let n = length s.workers in
      elim (search_all o threads s getting (λ i. returns (getting i)) n
        (λ i h. (no_worker o threads s i h).0)) [
          | inl (i, taken) ↦ inl (getting i, tt, taken)
          | inr no_get ↦
              elim (search_all o threads s putting (λ i. returns (putting i)) n
                (λ i h. (no_worker o threads s i h).1)) [
                  | inl (i, taken) ↦ inl (putting i, tt, taken)
                  | inr no_put ↦
                      elim (search_all o threads s writing (λ i. returns (writing i)) n
                        (λ i h. (no_worker o threads s i h).2)) [
                          | inl (i, taken) ↦ inl (writing i, tt, taken)
                          | inr no_write ↦
                              elim (search_all o threads s notified (λ i. returns (notified i))
                                (length s.pipes) (no_pipe o threads s)) [
                                  | inl (i, taken) ↦ inl (notified i, tt, taken)
                                  | inr no_notice ↦
                                      elim (taken_or_not o threads s deliver (returns deliver)) [
                                        | inl taken ↦ inl (deliver, tt, taken)
                                        | inr no_delivery ↦ inr (record {
                                          no_get = no_get;
                                          no_put = no_put;
                                          no_write = no_write;
                                          no_notice = no_notice;
                                          no_delivery = no_delivery;
                                        })
                                      ]
                                ]
                        ]
                ]
        ]

  -- Steps that the threads take by themselves until they are at rest.
  abbrev pub Settles : State ev cf → Type 0
  Settles s =
      (more : List Action) × All Own more
      × ((s' : State ev cf) × (run o threads s more ≡ went s') × AtRest o threads s')

  settle :
      (n : ℕ) (s : State ev cf) → work fifo s < n → Good q fifo threads some_threads s → Settles s
  unfolding run Takes
  settle zero s h good = absurd (omega (arith, h))
  settle (suc n) s h good = elim (next s good) [
    | inr rest ↦ ([], tt, (s, refl, rest))
    | inl (a, own, (s1, e)) ↦
        let good1 : Good q fifo threads some_threads s1 =
          subst (GoodAfter q fifo threads some_threads) e
            (act-Good q fifo threads some_threads o s good a) in
        let less : work fifo s1 < work fifo s =
          subst (Outcome (λ s'. work fifo s' < work fifo s) Unit) e
            (act-Less fifo o threads s a own) in
        let (more, owns, (s2, e2, rest)) = settle n s1 (omega (arith, less, h)) good1 in
        (a ∷ more, (own, owns), (s2, rw (e, run) e2, rest))
  ]

  pub settles : (s : State ev cf) → Good q fifo threads some_threads s → Settles s
  settles s good = settle (suc (work fifo s)) s (omega arith) good

-- ===== src/MultiThread/Server/Runs.antt =====
-- Claims about the states of dev_examples/libevent_multithreads that every action keeps.
use test_code.Prelude.{ℕ, List, [], ◌∷◌, ◌++◌, ◌≡◌, ap}
use test_code.Wire.{ByteOrder}
use test_code.Libevent.{Libevent}
use test_code.CfQueue.{CfQueue}
use test_code.MultiThread.Server.{State, Result, went, disabled, failed, Action, act, run}

module _ {ev : Libevent} {cf : CfQueue} where
  -- A claim about the state that an action leads to, and one about a failure.
  abbrev pub Outcome : (State ev cf → Type 0) → Type 0 → Result ev cf → Type 0
  Outcome P F (went s) = P s
  Outcome P F disabled = Unit
  Outcome P F failed = F

  module _ (P : State ev cf → Type 0) (F : Type 0) (o : ByteOrder) (threads : ℕ) where
    pub run-Outcome :
        ((s : State ev cf) → P s → (a : Action) → Outcome P F (act o threads a s))
        → (more : List Action) (s : State ev cf) → P s
        → Outcome P F (run o threads s more)
    unfolding run
    run-Outcome keep [] s h = h
    run-Outcome keep (a ∷ more) s h = go (act o threads a s) (keep s h a) (run-Outcome keep more)
      where
        go :
            (r : Result ev cf)
            → Outcome P F r
            → ((s' : State ev cf) → P s' → Outcome P F (run o threads s' more))
            → Outcome P F
                (elim r [ went s' ↦ run o threads s' more | disabled ↦ disabled | failed ↦ failed ])
        go (went s') k ih = ih s' k
        go disabled k ih = tt
        go failed k ih = k

  module _ (o : ByteOrder) (threads : ℕ) where
    -- A run that goes on.
    pub run_append :
        (before more : List Action) (s0 s : State ev cf)
        → run o threads s0 before ≡ went s
        → run o threads s0 (before ++ more) ≡ run o threads s more
    unfolding run
    run_append [] more s0 s e = let same : s0 ≡ s = cc in ap (λ x. run o threads x more) same
    run_append (a ∷ before) more s0 s e =
        go (act o threads a s0) (λ s1. run_append before more s1 s) e
      where
        go :
            (r : Result ev cf)
            → ((s1 : State ev cf)
                → run o threads s1 before ≡ went s
                → run o threads s1 (before ++ more) ≡ run o threads s more)
            → (elim r [ went s1 ↦ run o threads s1 before | disabled ↦ disabled | failed ↦ failed ])
              ≡ went s
            → (elim r [
              | went s1 ↦ run o threads s1 (before ++ more)
              | disabled ↦ disabled
              | failed ↦ failed
            ])
              ≡ run o threads s more
        go (went s1) ih e' = ih s1 e'
        go disabled ih e' = absurd cc
        go failed ih e' = absurd cc

-- ===== src/MultiThread/Flow/Search.antt =====
-- Whether some thread of dev_examples/libevent_multithreads can take a step by itself.
use native.Mathlib.Decide.{dec_lt}
use test_code.Prelude.{
  ℕ, zero, suc, ◌≤◌, ◌<◌, ◌≡◌, refl, subst, none, List, [], ◌∷◌, arith, length, get_elem?, ◌⊎◌, inl,
  inr,
}
use test_code.Wire.{ByteOrder}
use test_code.Libevent.{Libevent}
use test_code.CfQueue.{CfQueue}
use test_code.MultiThread.Server.{
  MainThread, dispatching, delivering, State, Result, went, disabled, failed, Action, notified,
  getting, putting, writing, dispatch, get, put, write, on_main, act,
}
use test_code.MultiThread.Server.Runs.{Outcome}

get_elem?-outside : {A : Type 0} (xs : List A) (i : ℕ) → length xs ≤ i → get_elem? xs i ≡ none
get_elem?-outside [] i h = refl
get_elem?-outside (x ∷ xs) zero h = absurd (omega arith)
get_elem?-outside (x ∷ xs) (suc i) h = get_elem?-outside xs i (omega arith)

module _ {ev : Libevent} {cf : CfQueue} (o : ByteOrder) (threads : ℕ) (s : State ev cf) where
  unfoldable pub Takes : Action → Type 0
  Takes a = (s' : State ev cf) × (act o threads a s ≡ went s')

  pub taken_or_not :
      (a : Action)
      → Outcome (λ s'. Unit) ⊥ (act o threads a s)
      → Takes a ⊎ (act o threads a s ≡ disabled)
  unfolding Takes
  taken_or_not a h = go (act o threads a s) refl h
    where
      go :
          (r : Result ev cf)
          → act o threads a s ≡ r
          → Outcome (λ s'. Unit) ⊥ r
          → ((s' : State ev cf) × (act o threads a s ≡ went s')) ⊎ (act o threads a s ≡ disabled)
      go (went s') e k = inl (s', e)
      go disabled e k = inr e
      go failed e k = absurd k

  module _ (f : ℕ → Action)
      (returns : (i : ℕ) → Outcome (λ s'. Unit) ⊥ (act o threads (f i) s)) where
    -- The steps of a kind, one after the other.
    search :
        (n : ℕ) → ((i : ℕ) × Takes (f i)) ⊎ ((i : ℕ) → i < n → act o threads (f i) s ≡ disabled)
    search zero = inr (λ i h. absurd (omega (arith, h)))
    search (suc n) = elim (search n) [
      | inl found ↦ inl found
      | inr none_before ↦ elim (taken_or_not (f n) (returns n)) [
        | inl taken ↦ inl (n, taken)
        | inr not_n ↦ inr (λ i h. elim (dec_lt i n) [
          | yes before ↦ none_before i before
          | no last ↦
              let same : n ≡ i = omega (arith, h, last) in
              subst (λ j. act o threads (f j) s ≡ disabled) same not_n
        ])
      ]
    ]

    pub search_all :
        (n : ℕ)
        → ((i : ℕ) → n ≤ i → act o threads (f i) s ≡ disabled)
        → ((i : ℕ) × Takes (f i)) ⊎ ((i : ℕ) → act o threads (f i) s ≡ disabled)
    search_all n outside = elim (search n) [
      | inl found ↦ inl found
      | inr none_inside ↦ inr (λ i. elim (dec_lt i n) [
        | yes inside ↦ none_inside i inside
        | no beyond ↦ outside i (omega (arith, beyond))
      ])
    ]

  pub no_worker :
      (i : ℕ)
      → length s.workers ≤ i
      → (act o threads (getting i) s ≡ disabled)
        × (act o threads (putting i) s ≡ disabled)
        × (act o threads (writing i) s ≡ disabled)
  unfolding act get put write
  no_worker i h =
      let out = get_elem?-outside s.workers i h in
      (rw (out, get) refl, rw (out, put) refl, rw (out, write) refl)

  pub no_pipe : (i : ℕ) → length s.pipes ≤ i → act o threads (notified i) s ≡ disabled
  unfolding act dispatch
  no_pipe i h = go s.main_thread
    where
      go : (t : MainThread) → on_main o threads (notified i) t s ≡ disabled
      go delivering = refl
      go dispatching = rw (get_elem?-outside s.pipes i h, dispatch) refl

-- ===== src/Prelude/Loop.antt =====
-- `while` loops that are left by `break`, `return` or their test.
use Prim.Native.Nat.{ℕ, zero, suc}
use mathlib.Core.Path.{◌≡◌, refl, subst}
use mathlib.Core.Option.{Option, none, some}

-- What one round of a loop ends in: the variables for the next round, or the result.
pub data Control (S R : Type 0) : Type 0 where
  again : S → Control S R
  leave : R → Control S R

-- At most as many rounds as the fuel says; `none` means that it ran out.
abbrev pub repeat : {S R : Type 0} → ℕ → (S → Control S R) → S → Option R
repeat zero round s = none
repeat (suc fuel) round s = elim (round s) [ again s' ↦ repeat fuel round s' | leave r ↦ some r ]

-- A claim about the state with `k` rounds to go, kept by every round until one leaves the loop.
abbrev pub After : {S R : Type 0} → (ℕ → S → Type 0) → (R → Type 0) → ℕ → Control S R → Type 0
After P Q k (again s) = P k s
After P Q k (leave r) = Q r

-- If no state is left at no fuel, the loop ends within its fuel, and what it ends in is right.
pub repeat_total :
    {S R : Type 0} (P : ℕ → S → Type 0) (Q : R → Type 0) (round : S → Control S R)
    → ((s : S) → ¬ P zero s)
    → ((k : ℕ) (s : S) → P (suc k) s → After P Q k (round s))
    → (fuel : ℕ) (s : S) → P fuel s
    → (r : R) × (repeat fuel round s ≡ some r) × Q r
repeat_total P Q round enough keep zero s h = absurd (enough s h)
repeat_total {S} {R} P Q round enough keep (suc fuel) s h =
    go (round s) (keep fuel s h) (repeat_total P Q round enough keep fuel)
  where
    go :
        (c : Control S R)
        → After P Q fuel c
        → ((s : S) → P fuel s → (r : R) × (repeat fuel round s ≡ some r) × Q r)
        → (r : R) × ((elim c [ again s' ↦ repeat fuel round s' | leave r ↦ some r ]) ≡ some r) × Q r
    go (again s') a ih = ih s' a
    go (leave r) a ih = (r, refl, a)

-- What every round keeps holds of whatever the loop ends in.
pub repeat_keeps :
    {S R : Type 0} (P : S → Type 0) (Q : R → Type 0) (round : S → Control S R)
    → ((s : S) → P s → After (λ _. P) Q zero (round s))
    → (fuel : ℕ) (s : S) (r : R) → P s
    → repeat fuel round s ≡ some r
    → Q r
repeat_keeps P Q round keep zero s r h e = cc
repeat_keeps {S} {R} P Q round keep (suc fuel) s r h e =
    go (round s) (keep s h) (λ s'. repeat_keeps P Q round keep fuel s' r) e
  where
    go :
        (c : Control S R)
        → After (λ _. P) Q zero c
        → ((s : S) → P s → repeat fuel round s ≡ some r → Q r)
        → ((elim c [ again s' ↦ repeat fuel round s' | leave r' ↦ some r' ]) ≡ some r)
        → Q r
    go (again s') a ih e' = ih s' a e'
    go (leave r') a ih e' = let same : r' ≡ r = cc in subst Q same a

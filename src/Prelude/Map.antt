-- ===== src/Prelude/Map.antt =====
-- `std::tr1::unordered_map<int, V>` as an association list: only look-ups are observed, never the
-- order. Keys are descriptors.
use Prim.Native.Nat.{ℕ}
use mathlib.Core.Path.{◌≡◌, refl}
use mathlib.Core.Logic.{◌≢◌}
use mathlib.Core.List.{List, [], ◌∷◌}
use mathlib.Core.Option.{Option, none, some}
use native.Mathlib.Omega.{arith}
use test_code.Prelude.Tests.{◌==◌, if◌then◌else◌}

module _ {ℓ} {V : Type ℓ} where
  -- `find`
  unfoldable pub lookup : ℕ → List (ℕ × V) → Option V
  lookup key [] = none
  lookup key ((j, val) ∷ entries) = if j == key then some val else lookup key entries

  -- `m[k] = v`
  unfoldable pub insert : ℕ → V → List (ℕ × V) → List (ℕ × V)
  insert key val [] = (key, val) ∷ []
  insert key val ((j, w) ∷ entries) =
      if j == key then (key, val) ∷ entries else (j, w) ∷ insert key val entries

  -- `m.erase(k)`
  unfoldable pub erase : ℕ → List (ℕ × V) → List (ℕ × V)
  erase key [] = []
  erase key ((j, w) ∷ entries) = if j == key then erase key entries else (j, w) ∷ erase key entries

  pub lookup-insert :
      (key j : ℕ) (val : V) (entries : List (ℕ × V))
      → lookup j (insert key val entries) ≡ (if key == j then some val else lookup j entries)
  unfolding lookup insert
  lookup-insert key j val [] = refl
  lookup-insert key j val ((l, old) ∷ entries) = ground (arith, lookup-insert key j val entries)

  pub lookup-insert_self :
      (key : ℕ) (val : V) (entries : List (ℕ × V)) → lookup key (insert key val entries) ≡ some val
  lookup-insert_self key val entries = ground (arith, lookup-insert key key val entries)

  pub lookup-insert_ne :
      (key j : ℕ) (val : V) (entries : List (ℕ × V))
      → key ≢ j
      → lookup j (insert key val entries) ≡ lookup j entries
  lookup-insert_ne key j val entries h = ground (arith, lookup-insert key j val entries)

  pub lookup-erase :
      (key j : ℕ) (entries : List (ℕ × V))
      → lookup j (erase key entries) ≡ (if key == j then none else lookup j entries)
  unfolding lookup erase
  lookup-erase key j [] = ground arith
  lookup-erase key j ((i, w) ∷ entries) = ground (arith, lookup-erase key j entries)

module _ {ℓ} {V : Type ℓ} (init : V) where
  -- The value of `m[k]`, which is the initial one where the key is missing.
  unfoldable pub at : ℕ → List (ℕ × V) → V
  at key entries = elim (lookup key entries) [ none ↦ init | some val ↦ val ]

  -- What `m[k]` does to the map: a missing key is inserted.
  unfoldable pub touch : ℕ → List (ℕ × V) → List (ℕ × V)
  touch key entries = elim (lookup key entries) [
    | none ↦ insert key init entries
    | some val ↦ entries
  ]

  pub at-insert :
      (key j : ℕ) (val : V) (entries : List (ℕ × V))
      → at j (insert key val entries) ≡ (if key == j then val else at j entries)
  unfolding at
  at-insert key j val entries = ground (arith, lookup-insert key j val entries)

  pub at-touch : (key j : ℕ) (entries : List (ℕ × V)) → at j (touch key entries) ≡ at j entries
  unfolding at touch
  at-touch key j entries = ground (arith, lookup-insert key j init entries)

  pub at-erase :
      (key j : ℕ) (entries : List (ℕ × V))
      → at j (erase key entries) ≡ (if key == j then init else at j entries)
  unfolding at
  at-erase key j entries = ground (arith, lookup-erase key j entries)

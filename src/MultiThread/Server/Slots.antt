-- ===== src/MultiThread/Server/Slots.antt =====
-- The vectors of queues, pipes and workers in dev_examples/libevent_multithreads: an element is
-- replaced.
use test_code.Prelude.{
  adjust, ℕ, zero, suc, ◌≡◌, refl, ◌≢◌, some, List, [], ◌∷◌, arith, length, get_elem?, ap,
}

module _ {ℓ} {A : Type ℓ} (f : A → A) where
  pub get_elem?-adjust :
      (i : ℕ) (xs : List A) (x : A)
      → get_elem? xs i ≡ some x
      → get_elem? (adjust i f xs) i ≡ some (f x)
  get_elem?-adjust i [] x e = cc
  get_elem?-adjust zero (y ∷ ys) x e = cc
  get_elem?-adjust (suc i) (y ∷ ys) x e = get_elem?-adjust i ys x e

  pub get_elem?-adjust_ne :
      (i j : ℕ) (xs : List A) → i ≢ j → get_elem? (adjust i f xs) j ≡ get_elem? xs j
  get_elem?-adjust_ne i j [] h = refl
  get_elem?-adjust_ne zero zero (x ∷ xs) h = absurd (h refl)
  get_elem?-adjust_ne zero (suc j) (x ∷ xs) h = refl
  get_elem?-adjust_ne (suc i) zero (x ∷ xs) h = refl
  get_elem?-adjust_ne (suc i) (suc j) (x ∷ xs) h = get_elem?-adjust_ne i j xs (λ e. h (ap suc e))

-- Two vectors of one length have the same indices.
pub get_elem?-same_length :
    {A B : Type 0} (xs : List A) (ys : List B) (i : ℕ) (x : A)
    → length xs ≡ length ys
    → get_elem? xs i ≡ some x
    → (y : B) × (get_elem? ys i ≡ some y)
get_elem?-same_length [] ys i x h e = absurd cc
get_elem?-same_length (x' ∷ xs) [] i x h e = absurd (omega arith)
get_elem?-same_length (x' ∷ xs) (y ∷ ys) zero x h e = (y, refl)
get_elem?-same_length (x' ∷ xs) (y ∷ ys) (suc i) x h e =
    get_elem?-same_length xs ys i x (omega arith) e

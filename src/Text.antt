-- ===== src/Text.antt =====
-- Texts, and numbers written out in them.
use test_code.Prelude.{
  ◌≢◌, subst, ℕ, zero, suc, ◌+◌, ◌-◌, ◌*◌, ◌/◌, ◌%◌, ◌≤◌, ◌<◌, ◌≡◌, refl, ap, ap₂, arith, Bool,
  true, false, Bool-cases, inl, inr, List, [], ◌∷◌, ◌++◌, ltb, leb, ◌^◌, ◌==◌, if◌then◌else◌,
  length, length-append, replicate, append_assoc,
}

-- A text as its character codes.
abbrev pub Text : Type 0
Text = List ℕ

abbrev pub spaces : ℕ → Text
spaces n = replicate n 32

-- The decimal digits of a number with fewer digits than the fuel.
unfoldable pub decimal : ℕ → ℕ → Text
decimal zero n = []
decimal (suc fuel) n =
    let rest = decimal fuel (n / 10) in
    if ltb n 10 then (48 + n) ∷ [] else rest ++ (48 + n % 10) ∷ []

pub fewer_digits :
    (fuel n k : ℕ) → (length (decimal fuel (n / 10)) ≤ k) → length (decimal (suc fuel) n) ≤ suc k
unfolding decimal
fewer_digits fuel n k h = ground (arith, length-append (decimal fuel (n / 10)) ((48 + n % 10) ∷ []))

pub last_digit : (fuel n : ℕ) → n < 10 → length (decimal fuel n) ≤ 1
unfolding decimal
last_digit zero n h = omega arith
last_digit (suc fuel) n h = ground arith

-- No more digits than the fuel.
pub length-decimal_fuel : (fuel n : ℕ) → length (decimal fuel n) ≤ fuel
unfolding decimal
length-decimal_fuel zero n = omega arith
length-decimal_fuel (suc fuel) n = ground (
  arith,
  length-decimal_fuel fuel (n / 10),
  length-append (decimal fuel (n / 10)) ((48 + n % 10) ∷ []),
)

-- Whether two texts are the same.
unfoldable pub same_text : Text → Text → Bool
same_text [] [] = true
same_text [] (y ∷ ys) = false
same_text (x ∷ xs) [] = false
same_text (x ∷ xs) (y ∷ ys) = if x == y then same_text xs ys else false

pub same_text_refl : (d : Text) → same_text d d ≡ true
unfolding same_text
same_text_refl [] = refl
same_text_refl (x ∷ d) = let own : (x == x) ≡ true = ground arith in rw own (same_text_refl d)

pub same_text→≡ : (xs ys : Text) → same_text xs ys ≡ true → xs ≡ ys
unfolding same_text
same_text→≡ [] [] h = refl
same_text→≡ [] (y ∷ ys) h = absurd cc
same_text→≡ (x ∷ xs) [] h = absurd cc
same_text→≡ (x ∷ xs) (y ∷ ys) h = elim (Bool-cases (x == y)) [
  | inl same ↦
      ap₂ (λ a rest. a ∷ rest) (ground (arith, same))
        (same_text→≡ xs ys (let h' = rw same at h in h'))
  | inr apart ↦ absurd (let h' = rw apart at h in cc)
]

-- The number at the start of a text, behind one that has been read.
unfoldable pub read_number : ℕ → Text → ℕ
read_number n [] = n
read_number n (c ∷ cs) =
    let rest = read_number (n * 10 + (c - 48)) cs in
    if leb 48 c then if leb c 57 then rest else n else n

pub read_number-decimal :
    (fuel n : ℕ) (rest : Text)
    → n < 10 ^ fuel
    → read_number 0 (decimal fuel n ++ rest) ≡ read_number n rest
unfolding read_number decimal
read_number-decimal zero n rest h = ap (λ k. read_number k rest) (omega (arith, h))
read_number-decimal (suc fuel) n rest h =
    let ih = read_number-decimal fuel (n / 10) ((48 + n % 10) ∷ rest) (omega (arith, h)) in
    elim (Bool-cases (ltb n 10)) [
      | inl small ↦ rw small (ground (arith, small))
      | inr large ↦ rw (large, append_assoc, ih) (ground (arith, large))
    ]

pub same_text→≢ : (xs ys : Text) → same_text xs ys ≡ false → xs ≢ ys
same_text→≢ xs ys h e = let same = subst (λ t. same_text xs t ≡ true) e (same_text_refl xs) in cc

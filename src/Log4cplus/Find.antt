-- ===== src/Log4cplus/Find.antt =====
-- The keys that `Log4cplus_AddExtenToFilename` of lite_test/log4cplus_test/src/test_normal.cpp cuts out
-- of the names.
use test_code.Prelude.{
  subst, length-append, length-take, take-length, ℕ, suc, ◌+◌, ◌≤◌, ◌≡◌, ◌≢◌, refl, sym, ap, ap₂,
  ◌∙◌, arith, true, Bool-cases, Option-cases, inl, inr, Option, none, some, [], ◌∷◌, ◌++◌, ◌==◌,
  length, take, drop,
}
use test_code.Text.{Text}
use test_code.Log4cplus.{starts_with, find, key_in}

starts_with-split :
    (what text : Text) → starts_with what text ≡ true → what ++ drop (length what) text ≡ text
unfolding starts_with
starts_with-split [] text h = refl
starts_with-split (x ∷ xs) [] h = absurd cc
starts_with-split (x ∷ xs) (y ∷ ys) h = elim (Bool-cases (x == y)) [
  | inl same ↦
      ap₂ (λ a rest. a ∷ rest) (ground (arith, same))
        (starts_with-split xs ys (let h' = rw same at h in h'))
  | inr apart ↦ absurd (let h' = rw apart at h in cc)
]

starts_with-append : (what rest : Text) → starts_with what (what ++ rest) ≡ true
unfolding starts_with
starts_with-append [] rest = refl
starts_with-append (x ∷ xs) rest =
    let own : (x == x) ≡ true = ground arith in rw own (starts_with-append xs rest)

find_here : (what text : Text) → starts_with what text ≡ true → find what text ≡ some 0
unfolding find
find_here what [] h = rw h refl
find_here what (y ∷ ys) h = rw h refl

starts_there : (what text post : Text) → what ++ post ≡ text → starts_with what text ≡ true
starts_there what text post h =
    subst (λ t. starts_with what t ≡ true) h (starts_with-append what post)

-- Where the text stands, it is found, no later than there.
find_first :
    (what text pre post : Text)
    → pre ++ what ++ post ≡ text
    → (i : ℕ) × (find what text ≡ some i) × (i ≤ length pre)
unfolding find
find_first what text [] post h =
    (0, find_here what text (starts_there what text post h), omega arith)
find_first what [] (c ∷ pre) post h = absurd cc
find_first what (y ∷ ys) (c ∷ pre) post h = elim (Bool-cases (starts_with what (y ∷ ys))) [
  | inl here ↦ (0, rw here refl, omega arith)
  | inr later ↦
      let (i, e, least) = find_first what ys pre post (ap (drop 1) h) in
      (suc i, rw (later, e) refl, omega (arith, least))
]

find_split :
    (what text : Text) (i : ℕ)
    → find what text ≡ some i
    → take i text ++ what ++ drop (length what) (drop i text) ≡ text
unfolding find
find_split what [] i h = elim (Bool-cases (starts_with what [])) [
  | inl here ↦
      let at_0 : 0 ≡ i = (let h' = rw here at h in cc) in
      subst (λ j. take j [] ++ what ++ drop (length what) (drop j []) ≡ []) at_0
        (starts_with-split what [] here)
  | inr nowhere ↦ absurd (let h' = rw nowhere at h in cc)
]
find_split what (y ∷ ys) i h = elim (Bool-cases (starts_with what (y ∷ ys))) [
  | inl here ↦
      let at_0 : 0 ≡ i = (let h' = rw here at h in cc) in
      subst (λ j. take j (y ∷ ys) ++ what ++ drop (length what) (drop j (y ∷ ys)) ≡ y ∷ ys) at_0
        (starts_with-split what (y ∷ ys) here)
  | inr later ↦ elim (Option-cases (find what ys)) [
    | inl none_found ↦ absurd (let h' = rw (later, none_found) at h in cc)
    | inr (j, e) ↦
        let at_j : suc j ≡ i = (let h' = rw (later, e) at h in cc) in
        subst (λ k. take k (y ∷ ys) ++ what ++ drop (length what) (drop k (y ∷ ys)) ≡ y ∷ ys) at_j
          (ap (λ t. y ∷ t) (find_split what ys j e))
  ]
]

-- The part of a name up to the end of the first place where a text stands; none where it stands
-- nowhere.
abbrev pub IsKeyOf : Text → Text → Option Text → Type 0
IsKeyOf what name none = (pre post : Text) → pre ++ what ++ post ≢ name
IsKeyOf what name (some key) =
    (pre : Text) × (rest : Text) × (key ≡ pre ++ what)
    × (key ++ rest ≡ name)
    × ((before post : Text) → before ++ what ++ post ≡ name → length pre ≤ length before)

key_found :
    (what name : Text) (i : ℕ)
    → find what name ≡ some i
    → IsKeyOf what name (some (take (i + length what) name))
key_found what name i e =
    let pre = take i name in
    let rest = drop (length what) (drop i name) in
    let split = find_split what name i e in
    let (j, found, least) = find_first what name pre rest split in
    let same_place : i ≡ j = cc in
    let size : length (pre ++ what) ≡ i + length what =
      omega (arith, least, same_place, length-append pre what, length-take i name) in
    let whole : (pre ++ what) ++ rest ≡ name = split in
    let key : take (i + length what) name ≡ pre ++ what =
      ap₂ (λ n t. take n t) (sym size) (sym whole) ∙ take-length (pre ++ what) rest in
    (
      pre,
      rest,
      key,
      ap (λ t. t ++ rest) key ∙ whole,
      λ before post h.
          let (l, e', first) = find_first what name before post h in
          let again : i ≡ l = cc in omega (arith, again, first, length-take i name),
    )

-- Of every name in which the text stands, the key is the part up to the end of its first occurrence; the
-- name has no key exactly where the text stands nowhere in it.
pub key_in-IsKeyOf : (what name : Text) → IsKeyOf what name (key_in what name)
unfolding key_in
key_in-IsKeyOf what name = elim (Option-cases (find what name)) [
  | inl nowhere ↦
      subst
        (λ found.
          IsKeyOf what name
            (elim found [ none ↦ none | some i ↦ some (take (i + length what) name) ]))
        (sym nowhere)
        (λ pre post h. let (i, e, least) = find_first what name pre post h in absurd cc)
  | inr (i, e) ↦
      subst
        (λ found.
          IsKeyOf what name
            (elim found [ none ↦ none | some j ↦ some (take (j + length what) name) ]))
        (sym e) (key_found what name i e)
]

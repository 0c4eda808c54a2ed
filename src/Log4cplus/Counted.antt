-- ===== src/Log4cplus/Counted.antt =====
-- What `Log4cplus_AddExtenToFilename` of lite_test/log4cplus_test/src/test_normal.cpp does, by where the
-- text stands in the names.
use test_code.Prelude.{
  ℕ, ℤ, pos, negsuc, suc, ◌≡◌, ◌≢◌, ◌⊎◌, refl, sym, ap, ap₂, subst, ◌∙◌, arith, true, Bool-cases,
  inl, inr, Option, none, some, List, [], ◌∷◌, ◌++◌, All, length, length-append, take, take-length,
  if◌then◌else◌, replicate, flatten,
}
use test_code.Text.{Text, same_text, same_text→≢, same_text→≡}
use test_code.Log4cplus.{Properties, IsProperties, key_in, add_exten_to_filename}
use test_code.Log4cplus.Find.{IsKeyOf, key_in-IsKeyOf}
use test_code.Log4cplus.Extended.{
  times, any_key, extensions, reported, add_exten_to_filename-get_property,
}

-- The text stands in the name.
abbrev pub Holds : Text → Text → Type 0
Holds what name = (pre : Text) × (post : Text) × (pre ++ what ++ post ≡ name)

-- How many of the names have a key.
pub data Counts (what key : Text) : List Text → ℕ → Type 0 where
  no_names : Counts what key [] 0
  has_key :
      {name : Text} {names : List Text} {n : ℕ}
      → IsKeyOf what name (some key)
      → Counts what key names n
      → Counts what key (name ∷ names) (suc n)
  other_key :
      {name : Text} {names : List Text} {n : ℕ}
      → ¬ IsKeyOf what name (some key)
      → Counts what key names n
      → Counts what key (name ∷ names) n

-- A name has one key only.
key_unique :
    (what name key key' : Text)
    → IsKeyOf what name (some key)
    → IsKeyOf what name (some key')
    → key ≡ key'
key_unique what name key key' (pre, rest, end, split, first) (pre', rest', end', split', first') =
    let here : pre ++ what ++ rest ≡ name = ap (λ t. t ++ rest) (sym end) ∙ split in
    let here' : pre' ++ what ++ rest' ≡ name = ap (λ t. t ++ rest') (sym end') ∙ split' in
    let le = first pre' rest' here' in
    let ge = first' pre rest here in
    let size : length key ≡ length key' =
      ap length end
      ∙ omega (arith, le, ge, length-append pre what, length-append pre' what)
      ∙ sym (ap length end') in
    sym (take-length key rest)
    ∙ ap₂ (λ n t. take n t) size (split ∙ sym split')
    ∙ take-length key' rest'

times-Counts : (what key : Text) (names : List Text) → Counts what key names (times what key names)
unfolding times
times-Counts what key [] = no_names
times-Counts what key (name ∷ names) =
    go (key_in what name) (key_in-IsKeyOf what name) (times-Counts what key names)
  where
    go :
        (r : Option Text)
        → IsKeyOf what name r
        → Counts what key names (times what key names)
        → Counts what key (name ∷ names) (elim r [
          | none ↦ times what key names
          | some found ↦
              if same_text found key then suc (times what key names) else times what key names
        ])
    go none nowhere ih =
        other_key
          (λ k.
            let (pre, rest, end, split, first) = k in
            nowhere pre rest (ap (λ t. t ++ rest) (sym end) ∙ split))
          ih
    go (some found) k ih = elim (Bool-cases (same_text found key)) [
      | inl same ↦
          rw same
            (has_key (subst (λ t. IsKeyOf what name (some t)) (same_text→≡ found key same) k) ih)
      | inr apart ↦
          rw apart
            (other_key (λ k'. same_text→≢ found key apart (key_unique what name found key k k')) ih)
    ]

-- One of the names holds the text.
abbrev pub Somewhere : Text → List Text → Type 0
Somewhere what [] = ⊥
Somewhere what (name ∷ names) = Holds what name ⊎ Somewhere what names

-- The result without a key.
abbrev pub Reports : Text → List Text → ℤ → Type 0
Reports what names res =
    ((res ≡ pos 0) × Somewhere what names)
    ⊎ ((res ≡ negsuc 0) × All (λ name. ¬ Holds what name) names)

any_key-Reports :
    (what : Text) (names : List Text)
    → Reports what names (if any_key what names then pos 0 else negsuc 0)
unfolding any_key
any_key-Reports what [] = inr (refl, tt)
any_key-Reports what (name ∷ names) =
    go (key_in what name) (key_in-IsKeyOf what name) (any_key-Reports what names)
  where
    go :
        (r : Option Text)
        → IsKeyOf what name r
        → Reports what names (if any_key what names then pos 0 else negsuc 0)
        → Reports what
            (name ∷ names)
            (if elim r [ none ↦ any_key what names | some found ↦ true ] then pos 0 else negsuc 0)
    go none nowhere (inl (res, there)) = inl (res, inr there)
    go none nowhere (inr (res, nowhere_else)) =
        inr (res, (λ h. let (pre, post, here) = h in nowhere pre post here, nowhere_else))
    go (some found) (pre, rest, end, split, first) ih =
        inl (refl, inl (pre, rest, ap (λ t. t ++ rest) (sym end) ∙ split))

-- What a call makes of a property, given a key or none.
abbrev pub Extends : Text → Text → Text → List Text → ℕ → ℤ → Type 0
Extends [] what key names n res = Counts what key names n × Reports what names res
Extends (c ∷ given) what key names n res =
    (c ∷ given ≡ key → n ≡ 1) × (c ∷ given ≢ key → n ≡ 0) × (res ≡ negsuc 0)

module _ {p : Properties} (laws : IsProperties p) where
  -- The key of a name is its part up to the end of the first place where the text stands. Without a key
  -- given, every property is extended once for each name of which it is the key, which leaves the others
  -- as they are, and the result is 0 if the text stands in one of the names, and -1 if it stands in none.
  -- With a key, that property is extended once, the others are left, and the result is -1.
  pub add_exten_to_filename-Extends :
      (extend given what key : Text) (s : p.State)
      → let (s', res) = add_exten_to_filename p extend given what s in
        (n : ℕ) × (p.get_property key s' ≡ p.get_property key s ++ flatten (replicate n extend))
        × Extends given what key (p.property_names s) n res
  unfolding extensions reported
  add_exten_to_filename-Extends extend [] what key s =
      let (value, res) = add_exten_to_filename-get_property laws extend [] what key s in
      (
        times what key (p.property_names s),
        value,
        (
          times-Counts what key (p.property_names s),
          subst (Reports what (p.property_names s)) (sym res)
              (any_key-Reports what (p.property_names s)),
        ),
      )
  add_exten_to_filename-Extends extend (c ∷ given) what key s =
      let (value, res) = add_exten_to_filename-get_property laws extend (c ∷ given) what key s in
      elim (Bool-cases (same_text (c ∷ given) key)) [
        | inl same ↦ (
          1,
          let v = rw same at value in v,
          (λ e. refl, λ e. absurd (e (same_text→≡ (c ∷ given) key same)), res),
        )
        | inr apart ↦ (
          0,
          let v = rw apart at value in v,
          (λ e. absurd (same_text→≢ (c ∷ given) key apart e), λ e. refl, res),
        )
      ]

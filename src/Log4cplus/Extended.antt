-- ===== src/Log4cplus/Extended.antt =====
-- The names of the log files after `Log4cplus_AddExtenToFilename` of
-- lite_test/log4cplus_test/src/test_normal.cpp.
use test_code.Prelude.{
  ℕ, ℤ, pos, negsuc, suc, ◌≡◌, refl, sym, ap, ◌∙◌, Bool, true, false, Bool-cases, Option-cases, inl,
  inr, none, some, List, [], ◌∷◌, ◌++◌, append-nil, append_assoc, if◌then◌else◌, replicate, flatten,
}
use test_code.Text.{Text, same_text, same_text→≢, same_text→≡}
use test_code.Log4cplus.{
  Properties, IsProperties, key_in, extend_value, extend_names, add_exten_to_filename,
}

-- How many of the names have this key.
unfoldable pub times : Text → Text → List Text → ℕ
times what key [] = 0
times what key (name ∷ names) =
    let rest = times what key names in
    elim (key_in what name) [
      | none ↦ rest
      | some found ↦ if same_text found key then suc rest else rest
    ]

-- Whether one of the names has a key.
unfoldable pub any_key : Text → List Text → Bool
any_key what [] = false
any_key what (name ∷ names) =
    let rest = any_key what names in elim (key_in what name) [ none ↦ rest | some found ↦ true ]

-- How often a property is extended where a key is given, or none.
unfoldable pub extensions : Text → Text → Text → List Text → ℕ
extensions [] what key names = times what key names
extensions (c ∷ given) what key names = if same_text (c ∷ given) key then 1 else 0

-- Whether the extension is reported: with a key it is not.
unfoldable pub reported : Text → Text → List Text → Bool
reported [] what names = any_key what names
reported (c ∷ given) what names = false

-- Both cases of a test that decides nothing.
either_way : (b : Bool) → (if b then pos 0 else pos 0) ≡ pos 0
either_way true = refl
either_way false = refl

module _ {p : Properties} (laws : IsProperties p) where
  value_after_one :
      (extend found key : Text) (s : p.State)
      → p.get_property key (extend_value p extend found s)
        ≡ (if same_text found key then p.get_property key s ++ extend else p.get_property key s)
  unfolding extend_value
  value_after_one extend found key s = elim (Bool-cases (same_text found key)) [
    | inl same ↦
        rw (same, sym (same_text→≡ found key same))
          (laws.get_property-set_property found (p.get_property found s ++ extend) s)
    | inr apart ↦ rw apart (
        laws.get_property-set_property_ne found key (p.get_property found s ++ extend) s
          (same_text→≢ found key apart))
  ]

  value_after_all :
      (extend what key : Text) (names : List Text) (res : ℤ) (s : p.State)
      → p.get_property key (extend_names p extend what names res s).0
        ≡ p.get_property key s ++ flatten (replicate (times what key names) extend)
  unfolding extend_names times
  value_after_all extend what key [] res s = sym (append-nil (p.get_property key s))
  value_after_all extend what key (name ∷ names) res s = elim (Option-cases (key_in what name)) [
    | inl none_found ↦
        rw (extend_names, times, none_found) (value_after_all extend what key names res s)
    | inr (found, e) ↦
        let ih = value_after_all extend what key names (pos 0) (extend_value p extend found s) in
        let one = value_after_one extend found key s in
        elim (Bool-cases (same_text found key)) [
          | inl same ↦
              rw (extend_names, times, e, ih, one, same)
                (append_assoc (p.get_property key s) extend _)
          | inr apart ↦ rw (extend_names, times, e, ih, one, apart) refl
        ]
  ]

  result_after_all :
      (extend what : Text) (names : List Text) (res : ℤ) (s : p.State)
      → (extend_names p extend what names res s).1 ≡ (if any_key what names then pos 0 else res)
  unfolding extend_names any_key
  result_after_all extend what [] res s = refl
  result_after_all extend what (name ∷ names) res s = elim (Option-cases (key_in what name)) [
    | inl none_found ↦
        rw (extend_names, any_key, none_found) (result_after_all extend what names res s)
    | inr (found, e) ↦
        rw (extend_names, any_key, e)
          (result_after_all extend what names (pos 0) (extend_value p extend found s)
            ∙ either_way (any_key what names))
  ]

  -- Without a key, every property is extended once for each name that has it as its key, which leaves
  -- the others as they are, and 0 is returned exactly if one of the names has a key. With a key, that
  -- property is extended once, the others are left, and the result is -1.
  pub add_exten_to_filename-get_property :
      (extend given what key : Text) (s : p.State)
      → let (s', res) = add_exten_to_filename p extend given what s in
        let n = extensions given what key (p.property_names s) in
        (p.get_property key s' ≡ p.get_property key s ++ flatten (replicate n extend))
        × (res ≡ (if reported given what (p.property_names s) then pos 0 else negsuc 0))
  unfolding add_exten_to_filename extensions reported
  add_exten_to_filename-get_property extend [] what key s = (
    value_after_all extend what key (p.property_names s) (negsuc 0) s,
    result_after_all extend what (p.property_names s) (negsuc 0) s,
  )
  add_exten_to_filename-get_property extend (c ∷ rest) what key s =
      let one = value_after_one extend (c ∷ rest) key s in
      elim (Bool-cases (same_text (c ∷ rest) key)) [
        | inl same ↦
            (rw (one, same) (ap (λ t. p.get_property key s ++ t) (sym (append-nil extend))), refl)
        | inr apart ↦ (rw (one, apart) (sym (append-nil (p.get_property key s))), refl)
      ]

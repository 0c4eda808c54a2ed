-- ===== src/Log4cplus/Apart.antt =====
-- The log files of the children of lite_test/log4cplus_test/src/test_normal.cpp.
use test_code.Prelude.{
  ℕ, zero, suc, ◌^◌, ◌<◌, ◌≡◌, ◌≢◌, refl, sym, ap, ◌∙◌, arith, true, Option-cases, inl, inr, Option,
  none, some, List, [], ◌∷◌, ◌++◌, append_assoc, drop, replicate, flatten,
}
use test_code.Text.{Text, decimal, read_number, read_number-decimal}
use test_code.Log4cplus.{
  Properties, IsProperties, key_in, appender_file, Tm, number, time_text, extend_text, Child,
  exited, logging, child,
}
use test_code.Log4cplus.Extended.{
  times, any_key, extensions, reported, add_exten_to_filename-get_property,
}
use test_code.Log4cplus.Extend.{IsTime, generate_extend_whole}

times-any_key :
    (what key : Text) (names : List Text) → 0 < times what key names → any_key what names ≡ true
unfolding times any_key
times-any_key what key [] h = absurd (omega (arith, h))
times-any_key what key (name ∷ names) h = elim (Option-cases (key_in what name)) [
  | inl none_found ↦
      rw (any_key, none_found)
        (times-any_key what key names (let h' = rw (times, none_found) at h in h'))
  | inr (found, e) ↦ rw (any_key, e) refl
]

some-injective {ℓ} : {A : Type ℓ} {a b : A} → some a ≡ some b → a ≡ b
some-injective h = cc

append_left : (xs ys zs : Text) → xs ++ ys ≡ xs ++ zs → ys ≡ zs
append_left [] ys zs h = h
append_left (x ∷ xs) ys zs h = append_left xs ys zs (ap (drop 1) h)

repeated_apart :
    (pid other n : ℕ) (gmt now : Tm)
    → pid < 2 ^ 31
    → other < 2 ^ 31
    → flatten (replicate (suc n) (extend_text pid gmt))
      ≡ flatten (replicate (suc n) (extend_text other now))
    → pid ≡ other
unfolding extend_text time_text number read_number
repeated_apart pid other n gmt now h k same =
    let tail = flatten (replicate n (extend_text pid gmt)) in
    let tail' = flatten (replicate n (extend_text other now)) in
    sym (read_number-decimal 10 pid (time_text gmt ++ tail) (omega (arith, h)))
    ∙ ap (read_number 0) (sym (append_assoc (decimal 10 pid) (time_text gmt) tail))
    ∙ ap (λ t. read_number 0 (drop 1 t)) same
    ∙ ap (read_number 0) (append_assoc (decimal 10 other) (time_text now) tail')
    ∙ read_number-decimal 10 other (time_text now ++ tail') (omega (arith, k))

repeated_values :
    (pid other n : ℕ) (gmt now : Tm) (value : Text)
    → pid < 2 ^ 31
    → other < 2 ^ 31
    → 0 < n
    → value ++ flatten (replicate n (extend_text pid gmt))
      ≡ value ++ flatten (replicate n (extend_text other now))
    → pid ≡ other
repeated_values pid other zero gmt now value h k few same = absurd (omega (arith, few))
repeated_values pid other (suc n) gmt now value h k few same =
    repeated_apart pid other n gmt now h k (append_left value _ _ same)

-- The value of a property with which a child logs.
abbrev pub file_of : (p : Properties) → Text → Child p → Option Text
file_of p key exited = none
file_of p key (logging s) = some (p.get_property key s)

module _ {p : Properties} (laws : IsProperties p) where
  child_file :
      (pid : ℕ) (gmt : Tm) (key : Text) (s : p.State)
      → pid < 2 ^ 31
      → IsTime gmt
      → 0 < times appender_file key (p.property_names s)
      → file_of p key (child p pid (some gmt) s)
        ≡ some (
            p.get_property key s
            ++ flatten
                (replicate (times appender_file key (p.property_names s)) (extend_text pid gmt)))
  unfolding child extensions reported
  child_file pid gmt key s h time found =
      let whole = (generate_extend_whole pid gmt h time).0 in
      let (value, res) =
        add_exten_to_filename-get_property laws (extend_text pid gmt) [] appender_file key s in
      let any = times-any_key appender_file key (p.property_names s) found in
      rw (child, whole, res, reported, any, value) refl

  -- Where a name has this key, two children with different process ids, of an int each, that get a
  -- time up to the year 9999 each log with different values of the property: with the value that
  -- it had, and the extension of the child behind it as often as a name has the key.
  pub child-apart :
      (pid other : ℕ) (gmt now : Tm) (key : Text) (s : p.State)
      → pid < 2 ^ 31
      → other < 2 ^ 31
      → IsTime gmt
      → IsTime now
      → 0 < times appender_file key (p.property_names s)
      → pid ≢ other
      → (file_of p key (child p pid (some gmt) s)
          ≡ some (
              p.get_property key s
              ++ flatten
                  (replicate (times appender_file key (p.property_names s)) (extend_text pid gmt))))
        × (file_of p key (child p pid (some gmt) s) ≢ file_of p key (child p other (some now) s))
  child-apart pid other gmt now key s h k time time' found apart =
      let file = child_file pid gmt key s h time found in
      let file' = child_file other now key s k time' found in
      let values_apart =
        repeated_values pid other (times appender_file key (p.property_names s)) gmt now
          (p.get_property key s) h k found in
      (file, λ same. apart (values_apart (some-injective (sym file ∙ same ∙ file'))))

-- ===== src/Tests/Names.antt =====
-- lite_test/log4cplus_test/src/test_normal.cpp on the properties of conf_async.properties.
use test_code.Prelude.{
  ℕ, ◌≡◌, ◌≢◌, refl, arith, ◌<◌, Bool-cases, inl, inr, some, List, [], ◌∷◌, ◌++◌, map,
  if◌then◌else◌, flatten, replicate,
}
use test_code.Text.{Text, same_text, same_text_refl, same_text→≡, same_text→≢}
use test_code.Log4cplus.{
  Properties, IsProperties, starts_with, find, key_in, appender_file, add_exten_to_filename,
  extend_names, extend_value, Tm, number, padded, two, time_text, extend_text, generate_extend,
  child,
}
use test_code.Log4cplus.Extended.{times}
use test_code.Log4cplus.Counted.{Extends, add_exten_to_filename-Extends}
use test_code.Log4cplus.Extend.{IsTime}
use test_code.Log4cplus.Apart.{file_of, child-apart}

-- The properties as a list, the last one that has been set in front.
abbrev Entries : Type 0
Entries = List (Text × Text)

unfoldable get : Text → Entries → Text
get key [] = []
get key ((name, val) ∷ rest) = if same_text name key then val else get key rest

abbrev entries : Properties
entries = record {
  State = Entries;
  property_names = map (λ e. e.0);
  get_property = get;
  set_property = λ key val s. (key, val) ∷ s;
}

entries-IsProperties : IsProperties entries
unfolding get
entries-IsProperties = record {
  get_property-set_property = λ key val s. rw (same_text_refl key) refl;
  get_property-set_property_ne = λ key other val s apart. elim (Bool-cases (same_text key other)) [
    | inl same ↦ absurd (apart (same_text→≡ key other same))
    | inr differ ↦ rw differ refl
  ];
}

-- "A1." in front of the name of a property.
abbrev a1 : Text → Text
a1 name = b'A' ∷ b'1' ∷ b'.' ∷ name

abbrev test_async : Text
test_async = b't' ∷ b'e' ∷ b's' ∷ b't' ∷ []

abbrev config : Entries
config = (a1 [], []) ∷ (a1 appender_file, test_async) ∷ []

abbrev noon : Tm
noon = record { year = 114; mon = 11; mday = 3; hour = 12; min = 0; sec = 59 }

-- ".412.20141203_120059.log"
generate_extend_run :
    generate_extend 412 (some noon)
    ≡ some (
        b'.' ∷ b'4' ∷ b'1' ∷ b'2' ∷ b'.' ∷ b'2' ∷ b'0' ∷ b'1' ∷ b'4' ∷ b'1' ∷ b'2' ∷ b'0' ∷ b'3'
        ∷ b'_' ∷ b'1' ∷ b'2' ∷ b'0' ∷ b'0' ∷ b'5' ∷ b'9' ∷ b'.' ∷ b'l' ∷ b'o' ∷ b'g' ∷ [])
unfolding generate_extend extend_text time_text two padded number test_code.Text.decimal
generate_extend_run = refl

-- With a second name that only begins like the first, one property is extended twice, the other not at
-- all.
abbrev two_names : Entries
two_names = (a1 appender_file, test_async) ∷ (a1 appender_file ++ b'2' ∷ [], b'x' ∷ []) ∷ []

twice :
    get (a1 appender_file) (add_exten_to_filename entries (b'!' ∷ []) [] appender_file two_names).0
    ≡ test_async ++ b'!' ∷ b'!' ∷ []
unfolding add_exten_to_filename extend_names extend_value key_in find starts_with get same_text
twice = refl

add_exten_to_filename-Extends_example :
    let (s', res) = add_exten_to_filename entries test_async [] appender_file config in
    (n : ℕ) × (get (a1 appender_file) s'
      ≡ get (a1 appender_file) config ++ flatten (replicate n test_async))
    × Extends [] appender_file (a1 appender_file) (map (λ e. e.0) config) n res
add_exten_to_filename-Extends_example =
    add_exten_to_filename-Extends entries-IsProperties test_async [] appender_file
      (a1 appender_file) config

noon-IsTime : IsTime noon
noon-IsTime = (omega arith, omega arith, omega arith, omega arith, omega arith, omega arith)

one_name : 0 < times appender_file (a1 appender_file) (map (λ e. e.0) config)
unfolding times key_in find starts_with same_text
one_name = omega arith

child-apart_example :
    (file_of entries (a1 appender_file) (child entries 412 (some noon) config)
      ≡ some (
          get (a1 appender_file) config
          ++ flatten (
              replicate
                (times appender_file (a1 appender_file) (map (λ e. e.0) config))
                (extend_text 412 noon))))
    × (file_of entries (a1 appender_file) (child entries 412 (some noon) config)
        ≢ file_of entries (a1 appender_file) (child entries 413 (some noon) config))
child-apart_example =
    child-apart entries-IsProperties 412 413 noon noon (a1 appender_file) config (omega arith)
      (omega arith) noon-IsTime noon-IsTime one_name (omega arith)

-- ===== src/Log4cplus.antt =====
-- lite_test/log4cplus_test/src/test_normal.cpp: the names of the log files of the processes. Every child
-- reads the configuration again, and puts its process id and the time behind the names of its files.
pub mod Extended
pub mod Extend
pub mod Apart
pub mod Find
pub mod Counted
use test_code.Prelude.{
  ℕ, ℤ, pos, negsuc, zero, suc, ◌+◌, ◌-◌, ◌≡◌, ◌≢◌, Bool, true, false, Option, none, some, List, [],
  ◌∷◌, ◌++◌, ltb, ◌==◌, if◌then◌else◌, length, take, replicate,
}
use test_code.Text.{Text, decimal}

-- The properties of log4cplus, with the calls that the code makes on them.
pub record Properties : Type 1 where
  pub State : Type 0
  pub property_names : State → List Text
  pub get_property : Text → State → Text
  pub set_property : Text → Text → State → State

-- A value that has been set is the one that is got, and no other value changes.
pub record IsProperties (p : Properties) : Type 0 where
  pub get_property-set_property :
      (key val : Text) (s : p.State) → p.get_property key (p.set_property key val s) ≡ val
  pub get_property-set_property_ne :
      (key other val : Text) (s : p.State)
      → key ≢ other
      → p.get_property other (p.set_property key val s) ≡ p.get_property other s

unfoldable pub starts_with : Text → Text → Bool
starts_with [] text = true
starts_with (x ∷ xs) [] = false
starts_with (x ∷ xs) (y ∷ ys) = if x == y then starts_with xs ys else false

-- `std::string::find`, of which `none` is `npos`.
unfoldable pub find : Text → Text → Option ℕ
find what [] = if starts_with what [] then some 0 else none
find what (y ∷ ys) =
    let later = find what ys in
    if starts_with what (y ∷ ys) then some 0 else elim later [ none ↦ none | some i ↦ some (suc i) ]

-- `it->substr(0,it->find(findAppenderString)+findAppenderString.size())`
unfoldable pub key_in : Text → Text → Option Text
key_in what name = elim (find what name) [
  | none ↦ none
  | some i ↦ some (take (i + length what) name)
]

-- "Appender.File", the default.
abbrev pub appender_file : Text
appender_file =
    b'A' ∷ b'p' ∷ b'p' ∷ b'e' ∷ b'n' ∷ b'd' ∷ b'e' ∷ b'r' ∷ b'.' ∷ b'F' ∷ b'i' ∷ b'l' ∷ b'e' ∷ []

module _ (p : Properties) where
  -- `setProperty(key, getProperty(key)+extend)`
  unfoldable pub extend_value : Text → Text → p.State → p.State
  extend_value extend key s = p.set_property key (p.get_property key s ++ extend) s

  -- The `for` over the names, with `res`.
  unfoldable pub extend_names : Text → Text → List Text → ℤ → p.State → p.State × ℤ
  extend_names extend what [] res s = (s, res)
  extend_names extend what (name ∷ names) res s = elim (key_in what name) [
    | none ↦ extend_names extend what names res s
    | some key ↦ extend_names extend what names (pos 0) (extend_value extend key s)
  ]

  -- `Log4cplus_AddExtenToFilename`
  unfoldable pub add_exten_to_filename : Text → Text → Text → p.State → p.State × ℤ
  add_exten_to_filename extend [] what s =
      extend_names extend what (p.property_names s) (negsuc 0) s
  add_exten_to_filename extend (c ∷ key) what s = (extend_value extend (c ∷ key) s, negsuc 0)

-- What gmtime_r leaves in the fields that are printed: `tm_year`, `tm_mon`, `tm_mday`, `tm_hour`,
-- `tm_min` and `tm_sec`.
pub record Tm : Type 0 where
  pub year : ℕ
  pub mon : ℕ
  pub mday : ℕ
  pub hour : ℕ
  pub min : ℕ
  pub sec : ℕ

-- `%d`, of an `int` that is not negative.
unfoldable pub number : ℕ → Text
number n = decimal 10 n

-- A number after as many of the character `fill` as it lacks of the width: `%4d` and `%02d`.
unfoldable pub padded : ℕ → ℕ → ℕ → Text
padded fill width n = replicate (width - length (number n)) fill ++ number n

unfoldable pub two : ℕ → Text
two n = padded b'0' 2 n

-- ".%4d%02d%02d_%02d%02d%02d.log", the format behind the process id.
unfoldable pub time_text : Tm → Text
time_text gmt =
    b'.' ∷ padded b' ' 4 (gmt.year + 1900)
    ++ two (gmt.mon + 1)
    ++ two gmt.mday
    ++ b'_' ∷ two gmt.hour
    ++ two gmt.min
    ++ two gmt.sec
    ++ b'.' ∷ b'l' ∷ b'o' ∷ b'g' ∷ []

-- ".%d.%4d%02d%02d_%02d%02d%02d.log"
unfoldable pub extend_text : ℕ → Tm → Text
extend_text pid gmt = b'.' ∷ number pid ++ time_text gmt

-- `GenerateExtend`: what `gettimeofday` and `gmtime_r` give, of which `none` is a failure; snprintf
-- writes at most 31 characters and a 0 into the 32.
unfoldable pub generate_extend : ℕ → Option Tm → Option Text
generate_extend pid none = none
generate_extend pid (some gmt) = some (take (32 - 1) (extend_text pid gmt))

-- A child of `test_multi_processes_async_and_modify_logfile_name`: it exits, or it is configured and
-- logs.
pub data Child (p : Properties) : Type 0 where
  exited : Child p
  logging : p.State → Child p

module _ (p : Properties) where
  unfoldable pub child : ℕ → Option Tm → p.State → Child p
  child pid now config = elim (generate_extend pid now) [
    | none ↦ exited
    | some extend ↦
        let (config', rt) = add_exten_to_filename p extend [] appender_file config in
        elim rt [ pos n ↦ if n == 0 then logging config' else exited | negsuc n ↦ exited ]
  ]

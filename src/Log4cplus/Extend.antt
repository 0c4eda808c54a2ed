-- ===== src/Log4cplus/Extend.antt =====
-- What `GenerateExtend` of lite_test/log4cplus_test/src/test_normal.cpp prints.
use test_code.Prelude.{
  ℕ, ◌+◌, ◌-◌, ◌/◌, ◌^◌, ◌≤◌, ◌<◌, ◌≡◌, ap, arith, some, length, length-append, length-replicate,
  replicate, take_all,
}
use test_code.Text.{length-decimal_fuel, fewer_digits, last_digit}
use test_code.Log4cplus.{Tm, number, padded, two, time_text, extend_text, generate_extend}

-- A time in the years 1900 to 9999, as gmtime_r breaks it down.
abbrev pub IsTime : Tm → Type 0
IsTime t =
    (t.year + 1900 < 10000)
    × (t.mon < 12)
    × (t.mday < 32)
    × (t.hour < 24)
    × (t.min < 60)
    × (t.sec < 61)

length-padded :
    (fill width n : ℕ) → length (number n) ≤ width → length (padded fill width n) ≡ width
unfolding padded
length-padded fill width n h = omega (
  arith,
  h,
  length-append (replicate (width - length (number n)) fill) (number n),
  length-replicate {A = ℕ} (width - length (number n)) fill,
)

length-two : (n : ℕ) → n < 100 → length (two n) ≡ 2
unfolding two number
length-two n h = length-padded b'0' 2 n (fewer_digits 9 n 1 (last_digit 9 (n / 10) (omega arith)))

length-year : (n : ℕ) → n < 10000 → length (padded b' ' 4 n) ≡ 4
unfolding number
length-year n h = length-padded b' ' 4 n (
    fewer_digits 9 n 3 (
      fewer_digits 8 (n / 10) 2
        (fewer_digits 7 (n / 10 / 10) 1 (last_digit 7 (n / 10 / 10 / 10) (omega arith)))))

length-extend_text : (pid : ℕ) (gmt : Tm) → IsTime gmt → length (extend_text pid gmt) ≤ 31
unfolding extend_text time_text number
length-extend_text pid gmt (year, mon, mday, hour, min, sec) = simp length-append (
    ground (
      arith,
      length-decimal_fuel 10 pid,
      length-year (gmt.year + 1900) year,
      length-two (gmt.mon + 1) (omega (arith, mon)),
      length-two gmt.mday (omega (arith, mday)),
      length-two gmt.hour (omega (arith, hour)),
      length-two gmt.min (omega (arith, min)),
      length-two gmt.sec (omega (arith, sec)),
    ))

-- For every process id of an `int` and every time up to the year 9999, the extension is the whole
-- text: at most 31 characters, of which snprintf cuts none.
pub generate_extend_whole :
    (pid : ℕ) (gmt : Tm)
    → pid < 2 ^ 31
    → IsTime gmt
    → (generate_extend pid (some gmt) ≡ some (extend_text pid gmt))
      × (length (extend_text pid gmt) ≤ 31)
unfolding generate_extend
generate_extend_whole pid gmt h time =
    let size = length-extend_text pid gmt time in
    (ap some (take_all 31 (extend_text pid gmt) size), size)

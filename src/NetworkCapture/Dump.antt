-- ===== src/NetworkCapture/Dump.antt =====
-- The hex dump of dev_examples/network_capture/src/custcap.c, as the text that it prints. A negative
-- length prints what 0 does; a byte that would be read behind the payload counts as 0.
pub mod Line
pub mod Rows
pub mod Readback
use mathlib.Core.Option
use test_code.Prelude.{
  ℕ, zero, suc, ◌+◌, ◌-◌, ◌*◌, ◌/◌, ◌%◌, Bool, ◌&&◌, Option, none, some, List, [], ◌∷◌, ◌++◌, ltb,
  leb, ◌==◌, if◌then◌else◌, length, drop, replicate, flatten,
}
use test_code.Wire.{Bytes, byte_at}
unfoldable pub use test_code.Text.{Text, spaces, decimal}

-- `%02x` of a byte
unfoldable pub hex_digit : ℕ → ℕ
hex_digit d = if ltb d 10 then 48 + d else 87 + d

unfoldable pub hex_byte : ℕ → Text
hex_byte b = hex_digit (b / 16) ∷ hex_digit (b % 16) ∷ []

-- `%05d`; an `int` has at most 10 digits.
unfoldable pub five_digits : ℕ → Text
five_digits n = replicate (5 - length (decimal 10 n)) 48 ++ decimal 10 n

abbrev pub is_print : ℕ → Bool
is_print c = leb 32 c && leb c 126

unfoldable pub hex_part : ℕ → ℕ → Bytes → Text
hex_part i zero ch = []
hex_part i (suc left) ch =
    hex_byte (byte_at ch 0)
    ++ 32 ∷ (if i == 7 then 32 ∷ [] else [])
    ++ hex_part (suc i) left (drop 1 ch)

unfoldable pub ascii_part : ℕ → Bytes → Text
ascii_part zero ch = []
ascii_part (suc left) ch =
    (if is_print (byte_at ch 0) then byte_at ch 0 else 46) ∷ ascii_part left (drop 1 ch)

-- All of the line up to the last column.
unfoldable pub columns : Bytes → ℕ → ℕ → Text
columns payload len offset =
    five_digits offset
    ++ spaces 3
    ++ hex_part 0 len payload
    ++ (if ltb len 8 then 32 ∷ [] else [])
    ++ (if ltb len 16 then flatten (replicate (16 - len) (spaces 3)) else [])
    ++ spaces 3

unfoldable pub print_hex_ascii_line : Bytes → ℕ → ℕ → Text
print_hex_ascii_line payload len offset =
    columns payload len offset ++ (ascii_part len payload ++ 10 ∷ [])

abbrev pub line_width : ℕ
line_width = 16

-- `for ( ;; )`; `none` would mean that it did not end within the fuel.
unfoldable pub more_lines : ℕ → Bytes → ℕ → ℕ → Option Text
more_lines zero ch len_rem offset = none
more_lines (suc fuel) ch len_rem offset =
    let line_len = line_width % len_rem in
    let line = print_hex_ascii_line ch line_len offset in
    let rem = len_rem - line_len in
    let next = drop line_len ch in
    let rest = more_lines fuel next rem (offset + line_width) in
    if leb rem line_width
    then some (line ++ print_hex_ascii_line next rem (offset + line_width))
    else Option.map (λ text. line ++ text) rest

unfoldable pub print_payload : Bytes → ℕ → Option Text
unfolding more_lines
print_payload payload len =
    if len == 0
    then some []
    else if leb len line_width
    then some (print_hex_ascii_line payload len 0)
    else more_lines len payload len 0

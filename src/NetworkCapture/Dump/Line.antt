-- ===== src/NetworkCapture/Dump/Line.antt =====
-- One line of the hex dump of dev_examples/network_capture/src/custcap.c.
use test_code.Prelude.{
  length-replicate, ℕ, zero, suc, ◌+◌, ◌-◌, ◌*◌, ◌/◌, ◌≤◌, ◌<◌, ◌≡◌, refl, sym, ap, ◌∙◌, arith, [],
  ◌∷◌, ◌++◌, ltb, leb, if◌then◌else◌, length, length-append, drop, drop-length, replicate, flatten,
}
use test_code.Wire.{Bytes}
use test_code.Text.{fewer_digits, last_digit}
use test_code.NetworkCapture.Dump.{
  spaces, decimal, five_digits, hex_byte, hex_part, ascii_part, columns, print_hex_ascii_line,
}

length-blanks : (n : ℕ) → length (flatten (replicate n (spaces 3))) ≡ 3 * n
length-blanks zero = refl
length-blanks (suc n) = omega (arith, length-blanks n)

-- The space behind the eighth byte comes once.
length-hex_part :
    (i k : ℕ) (ch : Bytes)
    → length (hex_part i k ch) ≡ 3 * k + (if leb i 7 then if ltb 7 (i + k) then 1 else 0 else 0)
unfolding hex_part hex_byte
length-hex_part i zero ch = ground arith
length-hex_part i (suc k) ch = ground (arith, length-hex_part (suc i) k (drop 1 ch))

length-ascii_part : (k : ℕ) (ch : Bytes) → length (ascii_part k ch) ≡ k
unfolding ascii_part
length-ascii_part zero ch = refl
length-ascii_part (suc k) ch = ap suc (length-ascii_part k (drop 1 ch))

length-decimal : (n : ℕ) → n < 100000 → length (decimal 10 n) ≤ 5
length-decimal n h = fewer_digits 9 n 4 (
    fewer_digits 8 (n / 10) 3 (
      fewer_digits 7 (n / 10 / 10) 2
        (fewer_digits 6 (n / 10 / 10 / 10) 1 (last_digit 6 (n / 10 / 10 / 10 / 10) (omega arith)))))

pub length-five_digits : (n : ℕ) → n < 100000 → length (five_digits n) ≡ 5
unfolding five_digits
length-five_digits n h = omega (
  arith,
  length-append (replicate (5 - length (decimal 10 n)) 48) (decimal 10 n),
  length-replicate {A = ℕ} (5 - length (decimal 10 n)) 48,
  length-decimal n h,
)

length-columns :
    (payload : Bytes) (len offset : ℕ)
    → len ≤ 16
    → offset < 100000
    → length (columns payload len offset) ≡ 60
unfolding columns
length-columns payload len offset h k =
    let gap = length-blanks (16 - len) in
    simp length-append
      (ground (arith, length-five_digits offset k, length-hex_part 0 len payload, gap))

-- For every line of at most 16 bytes at an offset of at most five digits, the last column starts at
-- the same place.
pub print_hex_ascii_line-column :
    (payload : Bytes) (len offset : ℕ)
    → len ≤ 16
    → offset < 100000
    → (drop 60 (print_hex_ascii_line payload len offset) ≡ ascii_part len payload ++ 10 ∷ [])
      × (length (print_hex_ascii_line payload len offset) ≡ 61 + len)
unfolding print_hex_ascii_line
print_hex_ascii_line-column payload len offset h k =
    let size = length-columns payload len offset h k in
    let last = ascii_part len payload ++ 10 ∷ [] in
    (
      ap (λ n. drop n (columns payload len offset ++ last)) (sym size)
          ∙ drop-length (columns payload len offset) last,
      omega (
        arith,
        size,
        length-append (columns payload len offset) last,
        length-append (ascii_part len payload) (10 ∷ []),
        length-ascii_part len payload,
      ),
    )

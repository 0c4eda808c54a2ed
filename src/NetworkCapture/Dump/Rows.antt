-- ===== src/NetworkCapture/Dump/Rows.antt =====
-- All of the hex dump of dev_examples/network_capture/src/custcap.c.
use native.Mathlib.Decide.{dec_lt}
use test_code.Prelude.{
  ℕ, zero, suc, ◌+◌, ◌-◌, ◌*◌, ◌/◌, ◌%◌, ◌≤◌, ◌<◌, ◌≡◌, refl, sym, ap, ◌∙◌, arith, [], ◌∷◌, ◌++◌,
  leb, ◌==◌, if◌then◌else◌, some, true, false, drop, append-nil,
}
use native.Mathlib.Nat.{mod-eq_of_lt}
use test_code.Wire.{Bytes}
use test_code.NetworkCapture.Dump.{
  Text, line_width, print_hex_ascii_line, more_lines, print_payload,
}

-- The row with an index: the bytes from 16 times the index on, at most 16 of them.
abbrev pub row : Bytes → ℕ → ℕ → Text
row payload len i =
    let left = len - 16 * i in
    print_hex_ascii_line (drop (16 * i) payload) (if leb left 16 then left else 16) (16 * i)

-- So many rows, from an index on.
unfoldable pub rows : Bytes → ℕ → ℕ → ℕ → Text
rows payload len i zero = []
rows payload len i (suc n) = row payload len i ++ rows payload len (suc i) n

drop-nil : (n : ℕ) → drop {A = ℕ} n [] ≡ []
drop-nil zero = refl
drop-nil (suc n) = refl

pub drop-drop : (m n : ℕ) (xs : Bytes) → drop n (drop m xs) ≡ drop (m + n) xs
drop-drop zero n xs = ap (λ k. drop k xs) (omega arith)
drop-drop (suc m) n [] = drop-nil n ∙ sym (drop-nil (suc m + n))
drop-drop (suc m) n (x ∷ xs) =
    let e : suc m + n ≡ suc (m + n) = omega arith in
    drop-drop m n xs ∙ sym (ap (λ k. drop k (x ∷ xs)) e)

module _ (payload : Bytes) (len : ℕ) where
  -- The last row.
  last_row :
      (i n : ℕ)
      → 16 * i < len
      → len ≤ 16 * i + 16
      → n ≡ (len - 16 * i + 15) / 16
      → print_hex_ascii_line (drop (16 * i) payload) (len - 16 * i) (16 * i) ≡ rows payload len i n
  unfolding rows
  last_row i n h k e =
      let one : n ≡ 1 = omega arith in
      let short : leb (len - 16 * i) 16 ≡ true = ground arith in
      rw (one, short) (sym (append-nil _))

  -- A turn of the loop prints a row and leaves the loop's variables for the next one.
  more_lines-rows :
      (fuel i n : ℕ)
      → 16 * i + 16 < len
      → len - 16 * i ≤ fuel
      → n ≡ (len - 16 * i + 15) / 16
      → more_lines fuel (drop (16 * i) payload) (len - 16 * i) (16 * i)
        ≡ some (rows payload len i n)
  unfolding more_lines
  more_lines-rows zero i n h k e = absurd (omega arith)
  more_lines-rows (suc fuel) i zero h k e = absurd (omega arith)
  more_lines-rows (suc fuel) i (suc n) h k e =
      let full : line_width % (len - 16 * i) ≡ 16 = mod-eq_of_lt (omega arith) in
      let wide : leb (len - 16 * i) 16 ≡ false = ground arith in
      let left : len - 16 * i - 16 ≡ len - 16 * suc i = omega arith in
      let next : 16 * i + 16 ≡ 16 * suc i = omega arith in
      rw (full, drop-drop (16 * i) 16 payload, left, next)
        (elim (dec_lt (16 * suc i + 16) len) [
          | yes long ↦
              let longer : leb (len - 16 * suc i) 16 ≡ false = ground arith in
              rw (longer, more_lines-rows fuel (suc i) n long (omega arith) (omega arith))
                (unfold rows in rw wide refl)
          | no short ↦
              let last : leb (len - 16 * suc i) 16 ≡ true = ground arith in
              rw (last, last_row (suc i) n (omega arith) (omega arith) (omega arith))
                (unfold rows in rw wide refl)
        ])

  -- For every length, the loop ends, and what is printed is one line for each 16 bytes, the last of
  -- what remains, with their offset.
  pub print_payload-rows : print_payload payload len ≡ some (rows payload len 0 ((len + 15) / 16))
  unfolding print_payload
  print_payload-rows =
      let all : len ≡ len - 16 * 0 = omega arith in
      elim (dec_lt 16 len) [
        | yes long ↦
            let some_bytes : (len == 0) ≡ false = ground arith in
            let wide : leb len 16 ≡ false = ground arith in
            rw (some_bytes, wide)
              (ap (λ l. more_lines len payload l 0) all
                ∙ more_lines-rows len 0 ((len + 15) / 16) (omega arith) (omega arith) (omega arith))
        | no short ↦ elim (dec_lt 0 len) [
          | yes some_bytes ↦
              let not_zero : (len == 0) ≡ false = ground arith in
              let narrow : leb len 16 ≡ true = ground arith in
              rw (not_zero, narrow)
                (ap some (
                  ap (λ l. print_hex_ascii_line payload l 0) all
                  ∙ last_row 0 ((len + 15) / 16) (omega arith) (omega arith) (omega arith)))
          | no no_bytes ↦
              let empty : (len == 0) ≡ true = ground arith in
              let no_rows : (len + 15) / 16 ≡ 0 = omega arith in
              rw (empty, no_rows) (unfold rows in refl)
        ]
      ]

-- ===== src/NetworkCapture/Dump/Readback.antt =====
-- Reading the hex dump of dev_examples/network_capture/src/custcap.c back.
use native.Mathlib.Decide.{dec_lt}
use test_code.Prelude.{
  ℕ, zero, suc, ◌+◌, ◌-◌, ◌*◌, ◌/◌, ◌%◌, ◌≤◌, ◌<◌, ◌≡◌, refl, sym, subst, ap, ap₂, ◌∙◌, arith, some,
  [], ◌∷◌, ◌++◌, append_assoc, ltb, leb, ◌==◌, if◌then◌else◌, replicate, flatten, Bool-cases, inl,
  inr, map, take, drop, drop-length, length, length-drop,
}
use test_code.Wire.{Bytes}
use test_code.NetworkCapture.Dump.{
  Text, spaces, hex_digit, hex_byte, five_digits, hex_part, ascii_part, columns,
  print_hex_ascii_line, print_payload,
}
use test_code.NetworkCapture.Dump.Line.{length-five_digits, print_hex_ascii_line-column}
use test_code.NetworkCapture.Dump.Rows.{rows, drop-drop, print_payload-rows}

-- The value of a hex digit.
abbrev pub hex_value : ℕ → ℕ
hex_value c = if ltb c 58 then c - 48 else c - 87

-- So many bytes from a line, from an index in the line on.
unfoldable pub read_hex : ℕ → ℕ → Text → Bytes
read_hex i zero t = []
read_hex i (suc k) (h ∷ l ∷ sp ∷ t) =
    (hex_value h * 16 + hex_value l) ∷ read_hex (suc i) k (if i == 7 then drop 1 t else t)
read_hex i (suc k) t = []

-- So many rows, with so many bytes in all.
unfoldable pub read_rows : ℕ → ℕ → Text → Bytes
read_rows zero left t = []
read_rows (suc n) left t =
    let width = if leb left 16 then left else 16 in
    read_hex 0 width (drop 8 t) ++ read_rows n (left - width) (drop (61 + width) t)

abbrev pub unsigned_chars : Bytes → Bytes
unsigned_chars = map (λ b. b % 256)

hex_value-hex_digit : (d : ℕ) → d < 16 → hex_value (hex_digit d) ≡ d
unfolding hex_digit
hex_value-hex_digit d h = ground arith

read_hex-hex_part :
    (i k : ℕ) (ch : Bytes) (more : Text)
    → k ≤ length ch
    → read_hex i k (hex_part i k ch ++ more) ≡ unsigned_chars (take k ch)
unfolding read_hex hex_part hex_byte
read_hex-hex_part i zero ch more h = refl
read_hex-hex_part i (suc k) [] more h = absurd (omega arith)
read_hex-hex_part i (suc k) (b ∷ ch) more h =
    let byte : hex_value (hex_digit (b % 256 / 16)) * 16 + hex_value (hex_digit (b % 256 % 16))
        ≡ b % 256 =
      omega (
        arith,
        hex_value-hex_digit (b % 256 / 16) (omega arith),
        hex_value-hex_digit (b % 256 % 16) (omega arith),
      ) in
    ap₂ (λ x y. x ∷ y) byte
      (elim (Bool-cases (i == 7)) [
        | inl here ↦ rw here (read_hex-hex_part (suc i) k ch more (omega arith))
        | inr elsewhere ↦ rw elsewhere (read_hex-hex_part (suc i) k ch more (omega arith))
      ])

-- A line, and behind it what comes next, from the end of its hex column on.
line_end : Bytes → ℕ → Text → Text
line_end ch n rest =
    (if ltb n 8 then 32 ∷ [] else [])
    ++ ((if ltb n 16 then flatten (replicate (16 - n) (spaces 3)) else [])
        ++ (spaces 3 ++ (ascii_part n ch ++ (10 ∷ [] ++ rest))))

line_parts :
    (ch : Bytes) (n offset : ℕ) (rest : Text)
    → print_hex_ascii_line ch n offset ++ rest
      ≡ five_digits offset ++ (spaces 3 ++ (hex_part 0 n ch ++ line_end ch n rest))
unfolding print_hex_ascii_line columns line_end
line_parts ch n offset rest = simp append_assoc refl

read_line :
    (ch : Bytes) (n offset : ℕ) (rest : Text)
    → n ≤ length ch
    → offset < 100000
    → read_hex 0 n (drop 8 (print_hex_ascii_line ch n offset ++ rest)) ≡ unsigned_chars (take n ch)
read_line ch n offset rest h k =
    let cells = hex_part 0 n ch ++ line_end ch n rest in
    let front : drop 5 (five_digits offset ++ (spaces 3 ++ cells)) ≡ spaces 3 ++ cells =
      ap (λ m. drop m (five_digits offset ++ (spaces 3 ++ cells)))
        (sym (length-five_digits offset k))
      ∙ drop-length (five_digits offset) (spaces 3 ++ cells) in
    ap (λ t. read_hex 0 n (drop 8 t)) (line_parts ch n offset rest)
    ∙ ap (read_hex 0 n)
        (sym (drop-drop 5 3 (five_digits offset ++ (spaces 3 ++ cells))) ∙ ap (drop 3) front)
    ∙ read_hex-hex_part 0 n ch (line_end ch n rest) h

drop_line :
    (ch : Bytes) (n offset : ℕ) (rest : Text)
    → n ≤ 16
    → offset < 100000
    → drop (61 + n) (print_hex_ascii_line ch n offset ++ rest) ≡ rest
drop_line ch n offset rest h k =
    let line = print_hex_ascii_line ch n offset in
    ap (λ m. drop m (line ++ rest)) (sym ((print_hex_ascii_line-column ch n offset h k).1))
    ∙ drop-length line rest

take-nil : (n : ℕ) → take {A = ℕ} n [] ≡ []
take-nil zero = refl
take-nil (suc n) = refl

unsigned_take :
    (a b : ℕ) (q : Bytes)
    → unsigned_chars (take a q) ++ unsigned_chars (take b (drop a q))
      ≡ unsigned_chars (take (a + b) q)
unsigned_take zero b q = let e : b ≡ 0 + b = omega arith in ap (λ n. unsigned_chars (take n q)) e
unsigned_take (suc a) b [] = ap unsigned_chars (take-nil b ∙ sym (take-nil (suc a + b)))
unsigned_take (suc a) b (x ∷ q) =
    let e : suc a + b ≡ suc (a + b) = omega arith in rw e (ap (◌∷◌ (x % 256)) (unsigned_take a b q))

module _ (p : Bytes) (len : ℕ) (inside : len ≤ length p) (small : len < 100000) where
  -- One row, with a width that is what is left, or 16.
  read_row :
      (n i w : ℕ)
      → w ≤ 16
      → 16 * i + w ≤ len
      → (w < 16 → 16 * i + w ≡ len)
      → (rest : Text)
      → read_rows n (len - 16 * suc i) rest
        ≡ unsigned_chars (take (len - 16 * suc i) (drop (16 * suc i) p))
      → read_hex 0 w (drop 8 (print_hex_ascii_line (drop (16 * i) p) w (16 * i) ++ rest))
          ++ read_rows n
              (len - 16 * i - w)
              (drop (61 + w) (print_hex_ascii_line (drop (16 * i) p) w (16 * i) ++ rest))
        ≡ unsigned_chars (take (len - 16 * i) (drop (16 * i) p))
  read_row n i w h k full rest ih =
      let q = drop (16 * i) p in
      let left = len - 16 * suc i in
      let next : len - 16 * i - w ≡ left = elim (dec_lt w 16) [
        | yes short ↦ omega (arith, full short)
        | no whole ↦ omega arith
      ] in
      let behind : take left (drop (16 * suc i) p) ≡ take left (drop w q) = elim (dec_lt w 16) [
        | yes short ↦ let last : left ≡ 0 = omega (arith, full short) in rw last refl
        | no whole ↦
            let width : w ≡ 16 = omega arith in
            let e : 16 * suc i ≡ 16 * i + w = omega arith in
            ap (take left) (ap (λ m. drop m p) e ∙ sym (drop-drop (16 * i) w p))
      ] in
      let all : w + left ≡ len - 16 * i = elim (dec_lt w 16) [
        | yes short ↦ omega (arith, full short)
        | no whole ↦ omega arith
      ] in
      ap₂ (λ x y. x ++ y)
        (read_line q w (16 * i) rest (omega (arith, length-drop (16 * i) p)) (omega arith))
        (ap₂ (read_rows n) next (drop_line q w (16 * i) rest h (omega arith))
          ∙ ih
          ∙ ap unsigned_chars behind)
      ∙ unsigned_take w left q
      ∙ ap (λ m. unsigned_chars (take m q)) all

  read_rows-rows :
      (n i : ℕ)
      → n ≡ (len - 16 * i + 15) / 16
      → read_rows n (len - 16 * i) (rows p len i n)
        ≡ unsigned_chars (take (len - 16 * i) (drop (16 * i) p))
  unfolding read_rows rows
  read_rows-rows zero i e = let none_left : len - 16 * i ≡ 0 = omega arith in rw none_left refl
  read_rows-rows (suc n) i e =
      let ih = read_rows-rows n (suc i) (omega arith) in
      elim (Bool-cases (leb (len - 16 * i) 16)) [
        | inl last ↦
            let short : len - 16 * i ≤ 16 = ground (arith, last) in
            rw last (
              read_row n i (len - 16 * i) short (omega arith) (λ h. omega arith)
                (rows p len (suc i) n) ih)
        | inr wide ↦
            let long : 16 < len - 16 * i = ground (arith, wide) in
            rw wide (
              read_row n i 16 (omega arith) (omega arith) (λ h. absurd (omega arith))
                (rows p len (suc i) n) ih)
      ]

  -- The dump of fewer than 100000 bytes can be read back: from its lines come the bytes that were
  -- dumped, each as an unsigned char.
  pub print_payload-readback :
      (t : Text) × (print_payload p len ≡ some t)
      × (read_rows ((len + 15) / 16) len t ≡ unsigned_chars (take len p))
  print_payload-readback =
      let n = (len + 15) / 16 in
      let all : len - 16 * 0 ≡ len = omega arith in
      (
        rows p len 0 n,
        print_payload-rows p len,
        subst (λ l. read_rows n l (rows p len 0 n) ≡ unsigned_chars (take l p)) all
            (read_rows-rows n 0 (omega arith)),
      )

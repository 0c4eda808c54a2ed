-- ===== src/NetworkCapture/Cap/Layout.antt =====
-- The rows that dev_examples/network_capture/example/cap.c prints, and what can be told from them.
use native.Mathlib.Decide.{ℕ_discrete, dec_lt}
use test_code.Prelude.{
  ℕ, zero, suc, ◌+◌, ◌-◌, ◌%◌, ◌≤◌, ◌<◌, ◌≡◌, refl, ap, ◌⊎◌, inl, inr, arith, true, false, ◌&&◌,
  none, some, [], ◌∷◌, ◌++◌, leb, ◌==◌, if◌then◌else◌, length, take, map,
}
use test_code.Wire.{Bytes}
use test_code.NetworkCapture.Dump.{Text, hex_digit}
use test_code.NetworkCapture.Packet.{PktHdr}
use test_code.NetworkCapture.Cap.{hex_padded, cell, new_line, dump, process_packet}

-- Rows, of which the first has room for so many bytes and one more, and the others for 16; each ends
-- with a new line, the last one too.
unfoldable pub lay : ℕ → Bytes → Text
lay k [] = []
lay k (b ∷ []) = cell (b % 256) ++ 10 ∷ []
lay zero (b ∷ c ∷ r) = cell (b % 256) ++ (10 ∷ [] ++ lay 15 (c ∷ r))
lay (suc k) (b ∷ c ∷ r) = cell (b % 256) ++ lay k (c ∷ r)

-- The bytes left in the row at an index.
abbrev room : ℕ → ℕ
room i = if i == 0 then 16 else (16 - i % 16) % 16

new_line_last : (len i : ℕ) → (i == len - 1) ≡ true → new_line len i ≡ 10 ∷ []
new_line_last len i last = ground (arith, last)

-- Room for the bytes from an index on and from the next, and what is printed in between.
abbrev Turn : ℕ → ℕ → Text → Type 0
Turn k k' nl = ((k ≡ 0) × (k' ≡ 15) × (nl ≡ 10 ∷ [])) ⊎ ((k ≡ suc k') × (nl ≡ []))

turn : (len i : ℕ) → suc i < len → Turn (room i) (room (suc i)) (new_line len i)
turn len i h =
    let more : (i == len - 1) ≡ false = ground arith in
    elim (ℕ_discrete i 0) [
      | yes start ↦ inr (ground arith, ground (arith, more))
      | no later ↦ elim (ℕ_discrete (i % 16) 0) [
        | yes ends ↦ inl (ground arith, ground arith, ground (arith, more))
        | no inside ↦ inr (ground arith, ground (arith, more))
      ]
    ]

lay-Turn :
    (k k' b c : ℕ) (nl : Text) (r : Bytes)
    → Turn k k' nl
    → cell (b % 256) ++ (nl ++ lay k' (c ∷ r)) ≡ lay k (b ∷ c ∷ r)
unfolding lay
lay-Turn k k' b c nl r (inl (e, e', n)) = rw (e, e', n) refl
lay-Turn k k' b c nl r (inr (e, n)) = rw (e, n) refl

dump_outside : (len left i : ℕ) (p : Bytes) → length p < left → dump len i left p ≡ none
unfolding dump
dump_outside len zero i p h = absurd (omega arith)
dump_outside len (suc left) i [] h = refl
dump_outside len (suc left) i (b ∷ p) h = rw (dump_outside len left (suc i) p (omega arith)) refl

dump-lay :
    (len left i : ℕ) (p : Bytes)
    → i + left ≡ len
    → left ≤ length p
    → dump len i left p ≡ some (lay (room i) (take left p))
unfolding dump lay
dump-lay len zero i p e h = refl
dump-lay len (suc left) i [] e h = absurd (omega arith)
dump-lay len (suc zero) i (b ∷ p) e h =
    let last : (i == len - 1) ≡ true = ground arith in
    ap (λ x. some (cell (b % 256) ++ (x ++ []))) (new_line_last len i last)
dump-lay len (suc (suc left)) i (b ∷ []) e h = absurd (omega arith)
dump-lay len (suc (suc left)) i (b ∷ c ∷ p) e h =
    rw (dump-lay len (suc left) (suc i) (c ∷ p) (omega arith) (omega arith))
      (ap some (lay-Turn _ _ b c _ (take left p) (turn len i (omega arith))))

-- Exactly where the length in the header is at most the number of captured bytes, only captured bytes
-- are read. What is printed is then, of the first so many bytes, a row of 17 and rows of 16, each with
-- a new line behind it.
pub process_packet-lay :
    (counter : ℕ) (h : PktHdr) (packet : Bytes)
    → process_packet counter h packet ≡ (
        if leb h.len (length packet)
        then some (
          record { count = counter + 1; size = h.len; payload = lay 16 (take h.len packet) },
          counter + 1,
        )
        else none)
unfolding process_packet
process_packet-lay counter h packet = elim (dec_lt (length packet) h.len) [
  | yes outside ↦
      let long : leb h.len (length packet) ≡ false = ground arith in
      rw (long, dump_outside h.len h.len 0 packet outside) refl
  | no inside ↦
      let fits : leb h.len (length packet) ≡ true = ground arith in
      rw (fits, dump-lay h.len h.len 0 packet (omega arith) (omega arith)) refl
]

-- The small letters from a to f become the bytes 10 to 15.
abbrev pub fold_byte : ℕ → ℕ
fold_byte b = if leb 97 (b % 256) && leb (b % 256) 102 then b % 256 - 87 else b

letter : (m : ℕ) → 97 ≤ m → m ≤ 102 → cell ((m - 87) % 256) ≡ cell m
unfolding cell hex_padded hex_digit
letter m h k = let n : (m - 87) % 256 ≡ m - 87 = omega arith in rw n (ground arith)

cell_fold : (b : ℕ) → cell (fold_byte b % 256) ≡ cell (b % 256)
cell_fold b = elim (dec_lt (b % 256) 97) [
  | yes below ↦ let no : leb 97 (b % 256) ≡ false = ground arith in rw no refl
  | no small ↦
      let yes_97 : leb 97 (b % 256) ≡ true = ground arith in
      elim (dec_lt 102 (b % 256)) [
        | yes above ↦ let no : leb (b % 256) 102 ≡ false = ground arith in rw (yes_97, no) refl
        | no f ↦
            let yes_102 : leb (b % 256) 102 ≡ true = ground arith in
            rw (yes_97, yes_102) (letter (b % 256) (omega arith) (omega arith))
      ]
]

dump_fold : (len left i : ℕ) (p : Bytes) → dump len i left (map fold_byte p) ≡ dump len i left p
unfolding dump
dump_fold len zero i p = refl
dump_fold len (suc left) i [] = refl
dump_fold len (suc left) i (b ∷ p) = rw (dump_fold len left (suc i) p, cell_fold b) refl

-- A packet and the one in which the small letters from a to f are replaced by the bytes 10 to 15 are
-- printed alike.
pub process_packet-fold :
    (counter : ℕ) (h : PktHdr) (packet : Bytes)
    → process_packet counter h (map fold_byte packet) ≡ process_packet counter h packet
unfolding process_packet
process_packet-fold counter h packet = rw (dump_fold h.len h.len 0 packet) refl

-- ===== src/Framing/Stream.antt =====
-- The decoder over a stream: independence of how the stream is cut, and the round trip with `encode`.
use test_code.Prelude.{
  ℕ, zero, suc, ◌^◌, ◌≤◌, ◌<◌, ◌≡◌, refl, sym, ap, ◌∙◌, List, [], ◌∷◌, ◌++◌, append-nil,
  append_assoc, arith, le→ltb, length, drop, length-drop, length-append, take-append, drop-append,
  flatten, All, take-length, drop-length,
}
use native.Mathlib.Decide.{dec_lt}
use test_code.Wire.{Bytes, be32, to_be32, be32-append, be32-to_be32}
use test_code.Framing.{
  Mode, header, body, Stop, waiting, refused, Decoded, wait, prepend, rounds, decode, resume,
  encode, encode_all, IsSendable,
}
use test_code.Framing.Decode.{
  decode-header, decode-header_short, decode-body, decode-body_short, decode-body_nil,
}

resume-prepend_at :
    (limit : ℕ) (ps ms : List Bytes) (st : Stop) (rest more : Bytes)
    → resume limit (record { messages = ps ++ ms; stop = st; rest = rest }) more
      ≡ prepend ps (resume limit (record { messages = ms; stop = st; rest = rest }) more)
unfolding resume
resume-prepend_at limit ps ms (waiting m) rest more =
    ap (λ qs. record (decode limit m (rest ++ more)) { messages = qs })
      (append_assoc ps ms (decode limit m (rest ++ more)).messages)
resume-prepend_at limit ps ms refused rest more = refl

resume-prepend :
    (limit : ℕ) (ps : List Bytes) (d : Decoded) (more : Bytes)
    → resume limit (prepend ps d) more ≡ prepend ps (resume limit d more)
resume-prepend limit ps d more = resume-prepend_at limit ps d.messages d.stop d.rest more

resume-wait :
    (limit : ℕ) (m : Mode) (xs ys : Bytes) → resume limit (wait m xs) ys ≡ decode limit m (xs ++ ys)
unfolding resume
resume-wait limit m xs ys = refl

module _ (limit : ℕ) (xs ys : Bytes) where
  split-wait :
      (m : Mode)
      → decode limit m xs ≡ wait m xs
      → decode limit m (xs ++ ys) ≡ resume limit (decode limit m xs) ys
  split-wait m e = rw e (sym (resume-wait limit m xs ys))

  split-header :
      4 ≤ length xs
      → (decode limit (body (be32 xs)) (drop 4 xs ++ ys)
          ≡ resume limit (decode limit (body (be32 xs)) (drop 4 xs)) ys)
      → decode limit header (xs ++ ys) ≡ resume limit (decode limit header xs) ys
  unfolding resume
  split-header h ih =
      rw
        (
          decode-header limit (xs ++ ys) (omega (arith, length-append xs ys)),
          decode-header limit xs h,
          be32-append xs ys h,
          drop-append 4 xs ys h,
        )
        (ground (arith, ih))

  split-body :
      (n : ℕ)
      → 0 < length xs
      → n ≤ length xs
      → (decode limit header (drop n xs ++ ys) ≡ resume limit (decode limit header (drop n xs)) ys)
      → decode limit (body n) (xs ++ ys) ≡ resume limit (decode limit (body n) xs) ys
  split-body n h k ih = rw (
    decode-body limit (xs ++ ys) n (omega (arith, length-append xs ys))
        (omega (arith, length-append xs ys)),
    decode-body limit xs n h k,
    take-append n xs ys k,
    drop-append n xs ys k,
    resume-prepend,
    ih,
  )

-- By induction on the rounds.
split_rounds :
    (limit k : ℕ) (m : Mode) (xs ys : Bytes)
    → rounds m xs < k
    → decode limit m (xs ++ ys) ≡ resume limit (decode limit m xs) ys
split_rounds limit zero m xs ys h = absurd (omega arith)
split_rounds limit (suc k) header xs ys h = elim (dec_lt (length xs) 4) [
  | yes short ↦ split-wait limit xs ys header (decode-header_short limit xs short)
  | no long ↦
      split-header limit xs ys (omega arith)
        (split_rounds limit k (body (be32 xs)) (drop 4 xs) ys (omega (arith, length-drop 4 xs)))
]
split_rounds limit (suc k) (body n) xs ys h = elim (dec_lt 0 (length xs)) [
  | yes some_bytes ↦ elim (dec_lt (length xs) n) [
    | yes short ↦ split-wait limit xs ys (body n) (decode-body_short limit xs n short)
    | no long ↦
        split-body limit xs ys n some_bytes (omega arith)
          (split_rounds limit k header (drop n xs) ys (omega (arith, length-drop n xs)))
  ]
  | no no_bytes ↦ split-wait limit xs ys (body n) (decode-body_nil limit xs n (omega arith))
]

-- Decoding a stream is decoding its first part and going on with the second, wherever it is cut.
pub decode_split :
    (limit : ℕ) (m : Mode) (xs ys : Bytes)
    → decode limit m (xs ++ ys) ≡ resume limit (decode limit m xs) ys
decode_split limit m xs ys = split_rounds limit (suc (rounds m xs)) m xs ys (omega arith)

-- The decoder that takes a stream in pieces.
unfoldable pub feed : ℕ → Decoded → List Bytes → Decoded
feed limit d [] = d
feed limit d (c ∷ cs) = feed limit (resume limit d c) cs

-- Pieces of a stream, of any sizes and also empty ones, are decoded as the whole stream is.
pub feed-decode :
    (limit : ℕ) (m : Mode) (xs : Bytes) (cs : List Bytes)
    → feed limit (decode limit m xs) cs ≡ decode limit m (xs ++ flatten cs)
unfolding feed
feed-decode limit m xs [] = ap (decode limit m) (sym (append-nil xs))
feed-decode limit m xs (c ∷ cs) =
    ap (λ d. feed limit d cs) (sym (decode_split limit m xs c))
    ∙ feed-decode limit m (xs ++ c) cs
    ∙ ap (decode limit m) (append_assoc xs c (flatten cs))

decode-encode_body :
    (limit : ℕ) (p r : Bytes)
    → 0 < length p
    → decode limit (body (length p)) (p ++ r) ≡ prepend (p ∷ []) (decode limit header r)
decode-encode_body limit p r h =
    decode-body limit (p ++ r) (length p) (omega (arith, length-append p r))
      (omega (arith, length-append p r))
    ∙ rw (take-length p r, drop-length p r)

header_drop : (p r : Bytes) → drop 4 (encode p ++ r) ≡ p ++ r
unfolding encode to_be32
header_drop p r = refl

header_long : (p r : Bytes) → 4 ≤ length (encode p ++ r)
unfolding encode to_be32
header_long p r = omega arith

header_size : (p r : Bytes) → length p < 2 ^ 32 → be32 (encode p ++ r) ≡ length p
unfolding encode
header_size p r h =
    ap be32 (append_assoc (to_be32 (length p)) p r) ∙ be32-to_be32 (length p) (p ++ r) h

module _ (limit : ℕ) (word : limit < 2 ^ 32) where
  pub decode-encode :
      (p r : Bytes)
      → IsSendable limit p
      → decode limit header (encode p ++ r) ≡ prepend (p ∷ []) (decode limit header r)
  decode-encode p r (some_bytes, fits) =
      decode-header limit (encode p ++ r) (header_long p r)
      ∙ rw (header_size p r (omega arith), header_drop p r, le→ltb limit (length p) fits)
          (decode-encode_body limit p r some_bytes)

  pub decode-encode_all :
      (ps : List Bytes) (r : Bytes)
      → All (IsSendable limit) ps
      → decode limit header (encode_all ps ++ r) ≡ prepend ps (decode limit header r)
  unfolding encode_all
  decode-encode_all [] r h = refl
  decode-encode_all (p ∷ ps) r (hp, hps) =
      ap (decode limit header) (append_assoc (encode p) (encode_all ps) r)
      ∙ decode-encode p (encode_all ps ++ r) hp
      ∙ ap (prepend (p ∷ [])) (decode-encode_all ps r hps)

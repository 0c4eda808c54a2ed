-- ===== src/Framing/Decode.antt =====
-- The equations of `decode`, with the fuel out of sight, and what a split of the input does to it.
use test_code.Prelude.{
  ℕ, zero, suc, ◌≤◌, ◌<◌, ◌≡◌, sym, ap, ◌∙◌, [], ◌∷◌, arith, ltb, le→ltb, lt→ltb, length, take,
  drop, length-drop, if◌then◌else◌,
}
use test_code.Wire.{Bytes, be32}
use test_code.Framing.{Mode, header, body, wait, refuse, prepend, frames, rounds, decode}

-- Fuel beyond the number of rounds changes nothing.
frames_fuel :
    (limit f g : ℕ) (m : Mode) (bs : Bytes)
    → rounds m bs < f
    → rounds m bs < g
    → frames limit f m bs ≡ frames limit g m bs
unfolding frames
frames_fuel limit zero g m bs hf hg = absurd (omega arith)
frames_fuel limit (suc f) zero m bs hf hg = absurd (omega arith)
frames_fuel limit (suc f) (suc g) header bs hf hg =
    ground (arith, length-drop 4 bs, frames_fuel limit f g (body (be32 bs)) (drop 4 bs))
frames_fuel limit (suc f) (suc g) (body n) bs hf hg =
    ground (arith, length-drop n bs, frames_fuel limit f g header (drop n bs))

module _ (limit : ℕ) (bs : Bytes) where
  frames-decode : (f : ℕ) (m : Mode) → rounds m bs < f → frames limit f m bs ≡ decode limit m bs
  unfolding decode
  frames-decode f m h = frames_fuel limit f (suc (rounds m bs)) m bs h (omega arith)

  frames-header :
      (f : ℕ)
      → 4 ≤ length bs
      → frames limit (suc f) header bs ≡ (
          if ltb limit (be32 bs)
          then refuse (drop 4 bs)
          else frames limit f (body (be32 bs)) (drop 4 bs))
  unfolding frames
  frames-header f h = ground arith

  frames-body :
      (f n : ℕ)
      → 0 < length bs
      → n ≤ length bs
      → frames limit (suc f) (body n) bs
        ≡ prepend (take n bs ∷ []) (frames limit f header (drop n bs))
  unfolding frames
  frames-body f n h k = ground arith

  pub decode-header_short : length bs < 4 → decode limit header bs ≡ wait header bs
  unfolding decode frames
  decode-header_short h = ground arith

  pub decode-body_short : (n : ℕ) → length bs < n → decode limit (body n) bs ≡ wait (body n) bs
  unfolding decode frames
  decode-body_short n h = ground arith

  pub decode-body_nil : (n : ℕ) → length bs ≡ 0 → decode limit (body n) bs ≡ wait (body n) bs
  unfolding decode frames
  decode-body_nil n h = ground arith

module _ (limit : ℕ) (bs : Bytes) where
  pub decode-header :
      4 ≤ length bs
      → decode limit header bs ≡ (
          if ltb limit (be32 bs)
          then refuse (drop 4 bs)
          else decode limit (body (be32 bs)) (drop 4 bs))
  decode-header h =
      sym (frames-decode limit bs (suc (rounds header bs)) header (omega arith))
      ∙ frames-header limit bs (rounds header bs) h
      ∙ ap (λ d. if ltb limit (be32 bs) then refuse (drop 4 bs) else d)
          (frames-decode limit (drop 4 bs) (rounds header bs) (body (be32 bs))
            (omega (arith, length-drop 4 bs)))

  pub decode-body :
      (n : ℕ)
      → 0 < length bs
      → n ≤ length bs
      → decode limit (body n) bs ≡ prepend (take n bs ∷ []) (decode limit header (drop n bs))
  decode-body n h k =
      sym (frames-decode limit bs (suc (rounds (body n) bs)) (body n) (omega arith))
      ∙ frames-body limit bs (rounds (body n) bs) n h k
      ∙ ap (prepend (take n bs ∷ [])) (
          frames-decode limit (drop n bs) (rounds (body n) bs) header
            (omega (arith, length-drop n bs)))

  pub decode-header_big :
      4 ≤ length bs → limit < be32 bs → decode limit header bs ≡ refuse (drop 4 bs)
  decode-header_big h big = decode-header h ∙ rw (lt→ltb limit (be32 bs) big)

  pub decode-header_fits :
      4 ≤ length bs
      → be32 bs ≤ limit
      → decode limit header bs ≡ decode limit (body (be32 bs)) (drop 4 bs)
  decode-header_fits h fits = decode-header h ∙ rw (le→ltb limit (be32 bs) fits)

rest-frames :
    (limit fuel : ℕ) (m : Mode) (bs : Bytes) → length (frames limit fuel m bs).rest ≤ length bs
unfolding frames
rest-frames limit zero m bs = omega arith
rest-frames limit (suc fuel) header bs =
    ground (arith, rest-frames limit fuel (body (be32 bs)) (drop 4 bs), length-drop 4 bs)
rest-frames limit (suc fuel) (body n) bs =
    ground (arith, rest-frames limit fuel header (drop n bs), length-drop n bs)

-- The decoder leaves no more bytes than it was given.
pub rest-decode : (limit : ℕ) (m : Mode) (bs : Bytes) → length (decode limit m bs).rest ≤ length bs
unfolding decode
rest-decode limit m bs = rest-frames limit (suc (rounds m bs)) m bs

-- ===== src/Framing.antt =====
-- The servers' wire protocol, as a specification: a message is its length, in four bytes in network
-- order, and then its bytes. `decode` is the decoder that the read callbacks are proved to
-- implement; it is a function of the bytes at hand alone.
pub mod Decode
pub mod Stream
pub mod Echo
use test_code.Prelude.{
  ℕ, zero, suc, ◌+◌, ◌*◌, ◌≤◌, ◌<◌, true, false, ◌&&◌, List, [], ◌∷◌, ◌++◌, ltb, leb, length, take,
  drop, All,
}
use test_code.Wire.{Bytes, be32, to_be32}

-- A message on the wire.
unfoldable pub encode : Bytes → Bytes
encode p = to_be32 (length p) ++ p

unfoldable pub encode_all : List Bytes → Bytes
encode_all [] = []
encode_all (p ∷ ps) = encode p ++ encode_all ps

-- What the decoder waits for: a header, or the `n` bytes of a body.
pub data Mode : Type 0 where
  header : Mode
  body : ℕ → Mode

-- How decoding ends: it waits for more bytes, or a header has announced more than the limit.
pub data Stop : Type 0 where
  waiting : Mode → Stop
  refused : Stop

pub record Decoded : Type 0 where
  pub messages : List Bytes
  pub stop : Stop
  pub rest : Bytes

abbrev pub wait : Mode → Bytes → Decoded
wait m bs = record { messages = []; stop = waiting m; rest = bs }

abbrev pub refuse : Bytes → Decoded
refuse bs = record { messages = []; stop = refused; rest = bs }

abbrev pub prepend : List Bytes → Decoded → Decoded
prepend ps d = record d { messages = ps ++ d.messages }

-- A round takes a header or a body off the input; a body is looked for only where at least one byte
-- is at hand, so an empty message is complete when the byte behind it has come.
pub frames : ℕ → ℕ → Mode → Bytes → Decoded
frames limit zero m bs = wait m bs
frames limit (suc fuel) header bs = elim (leb 4 (length bs)) [
  | true ↦ elim (ltb limit (be32 bs)) [
    | true ↦ refuse (drop 4 bs)
    | false ↦ frames limit fuel (body (be32 bs)) (drop 4 bs)
  ]
  | false ↦ wait header bs
]
frames limit (suc fuel) (body n) bs = elim (ltb 0 (length bs) && leb n (length bs)) [
  | true ↦ prepend (take n bs ∷ []) (frames limit fuel header (drop n bs))
  | false ↦ wait (body n) bs
]

-- Each round makes this smaller, which bounds the rounds.
abbrev pub rounds : Mode → Bytes → ℕ
rounds header bs = 2 * length bs
rounds (body n) bs = suc (2 * length bs)

unfoldable pub decode : ℕ → Mode → Bytes → Decoded
decode limit m bs = frames limit (suc (rounds m bs)) m bs

-- What more input does to a decoder that has stopped.
unfoldable pub resume : ℕ → Decoded → Bytes → Decoded
resume limit d more = elim d.stop [
  | waiting m ↦ prepend d.messages (decode limit m (d.rest ++ more))
  | refused ↦ record d { rest = d.rest ++ more }
]

-- A message that the protocol carries without delay: not empty, and within the limit.
abbrev pub IsSendable : ℕ → Bytes → Type 0
IsSendable limit p = (0 < length p) × (length p ≤ limit)

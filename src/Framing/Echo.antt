-- ===== src/Framing/Echo.antt =====
-- A server that echoes what the decoder finds, as its client sees it.
use test_code.Prelude.{
  ℕ, ◌^◌, ◌<◌, ◌≡◌, refl, sym, ap, ◌∙◌, List, [], ◌∷◌, ◌++◌, append-nil, append_assoc, arith, All,
  drop,
}
use test_code.Wire.{Bytes, be32, to_be32, be32-to_be32}
use test_code.Framing.{
  Mode, header, body, Stop, waiting, refused, Decoded, wait, refuse, prepend, decode, resume,
  encode, encode_all, IsSendable,
}
use test_code.Framing.Decode.{decode-header_big, decode-header_fits, decode-body_nil}
use test_code.Framing.Stream.{decode_split, decode-encode_all}

-- What is left of a connection: the decoder's mode, the bytes not yet read, and the bytes written.
-- Or the process has ended.
pub data Seen : Type 0 where
  open_at : Mode → Bytes → Bytes → Seen
  ended : Seen

-- The decoder's end as the server shows it: every message is echoed, a refused one ends the process.
abbrev pub echoed : Bytes → Decoded → Seen
echoed out d = elim d.stop [
  | waiting m ↦ open_at m d.rest (out ++ encode_all d.messages)
  | refused ↦ ended
]

-- What more bytes from the client do to what is seen of its connection.
abbrev pub advance : ℕ → Seen → Bytes → Seen
advance limit (open_at m rest out) d = echoed out (decode limit m (rest ++ d))
advance limit ended d = ended

pub echoed-wait : (out : Bytes) (m : Mode) (bs : Bytes) → echoed out (wait m bs) ≡ open_at m bs out
unfolding encode_all
echoed-wait out m bs = ap (open_at m bs) (append-nil out)

pub encode_all-one : (p : Bytes) → encode_all (p ∷ []) ≡ encode p
unfolding encode_all
encode_all-one p = append-nil (encode p)

pub encode_all-append :
    (ps qs : List Bytes) → encode_all (ps ++ qs) ≡ encode_all ps ++ encode_all qs
unfolding encode_all
encode_all-append [] qs = refl
encode_all-append (p ∷ ps) qs =
    ap (◌++◌ (encode p)) (encode_all-append ps qs)
    ∙ sym (append_assoc (encode p) (encode_all ps) (encode_all qs))

echoed-prepend_at :
    (out : Bytes) (ps ms : List Bytes) (st : Stop) (rest : Bytes)
    → echoed out (record { messages = ps ++ ms; stop = st; rest = rest })
      ≡ echoed (out ++ encode_all ps) (record { messages = ms; stop = st; rest = rest })
echoed-prepend_at out ps ms (waiting m) rest = ap (open_at m rest) (
    ap (◌++◌ out) (encode_all-append ps ms)
    ∙ sym (append_assoc out (encode_all ps) (encode_all ms)))
echoed-prepend_at out ps ms refused rest = refl

-- An echo that was put into the output before the rest is decoded comes before the rest.
pub echoed-prepend :
    (out : Bytes) (ps : List Bytes) (d : Decoded)
    → echoed out (prepend ps d) ≡ echoed (out ++ encode_all ps) d
echoed-prepend out ps d = echoed-prepend_at out ps d.messages d.stop d.rest

advance-echoed_at :
    (limit : ℕ) (out : Bytes) (ps : List Bytes) (st : Stop) (rest b : Bytes)
    → let d : Decoded = record { messages = ps; stop = st; rest = rest } in
      advance limit (echoed out d) b ≡ echoed out (resume limit d b)
unfolding resume
advance-echoed_at limit out ps (waiting m) rest b =
    sym (echoed-prepend out ps (decode limit m (rest ++ b)))
advance-echoed_at limit out ps refused rest b = refl

-- More bytes after some bytes are all of them at once.
pub advance_split :
    (limit : ℕ) (v : Seen) (a b : Bytes)
    → advance limit (advance limit v a) b ≡ advance limit v (a ++ b)
advance_split limit (open_at m rest out) a b =
    let d = decode limit m (rest ++ a) in
    advance-echoed_at limit out d.messages d.stop d.rest b
    ∙ ap (echoed out)
        (sym (decode_split limit m (rest ++ a) b) ∙ ap (decode limit m) (append_assoc rest a b))
advance_split limit ended a b = refl

pub stream_echoed :
    (limit : ℕ) (word : limit < 2 ^ 32) (out : Bytes) (ps : List Bytes) (t : Bytes)
    → All (IsSendable limit) ps
    → echoed out (decode limit header (encode_all ps ++ t))
      ≡ echoed (out ++ encode_all ps) (decode limit header t)
stream_echoed limit word out ps t h =
    ap (echoed out) (decode-encode_all limit word ps t h)
    ∙ echoed-prepend out ps (decode limit header t)

pub decode-empty : (limit : ℕ) → decode limit header (encode []) ≡ wait (body 0) []
unfolding encode to_be32 be32
decode-empty limit =
    decode-header_fits limit (encode []) (omega arith) (omega arith)
    ∙ decode-body_nil limit [] 0 refl

pub decode-oversized :
    (limit n : ℕ) (more : Bytes)
    → limit < n
    → n < 2 ^ 32
    → decode limit header (to_be32 n ++ more) ≡ refuse (drop 4 (to_be32 n ++ more))
decode-oversized limit n more big word =
    decode-header_big limit (to_be32 n ++ more) (unfold to_be32 in omega arith)
      (omega (arith, be32-to_be32 n more word))

-- ===== src/PerfLibevent/Read.antt =====
-- `readcb` of dev_examples/perf_libevent/server.cpp implements the protocol's decoder.
use native.Mathlib.Decide.{dec_lt}
use test_code.Prelude.{
  ℕ, suc, ◌*◌, ◌<◌, ◌≡◌, refl, sym, ◌∙◌, some, arith, ltb, lt→ltb, le→ltb, if◌then◌else◌, length,
  Control, again, leave, After, repeat_total,
}
use test_code.Prelude.Map.{touch}
use test_code.Wire.{Bytes, ByteOrder}
use test_code.Libevent.{Libevent, Channel, IsByteQueue}
use test_code.Framing.{Mode, header, body, rounds, decode}
use test_code.Framing.Decode.{decode-header_short, decode-body_short, decode-body_nil}
use test_code.Framing.Echo.{Seen, echoed}
use test_code.PerfLibevent.{
  Globals, Called, returned, Reading, max_size, read_header, read_body, read_round, readcb, reading,
}
use test_code.PerfLibevent.Mode.{
  mode_of, IsSmall, body-fields, mode_of-touch_header, mode_of-touch_size,
}
use test_code.PerfLibevent.Round.{
  see, InStep, Right, read_header-Right, read_body-Right, stay-Right,
}

module _ {ev : Libevent} (q : IsByteQueue ev) (o : ByteOrder) (fd : ℕ) where
  abbrev sized : Reading ev → Globals
  sized s = record s.globals { session_info = touch 0 fd s.globals.session_info }

  module _ (s : Reading ev) (bs out : Bytes) where
    round-header :
        InStep q fd s header bs out
        → read_round ev o fd s ≡ (
            if ltb (length bs) 4
            then leave (returned s.globals s.channel)
            else read_header ev o fd s)
    unfolding read_round mode_of
    round-header i = ground arith

    round-body :
        (n : ℕ)
        → InStep q fd s (body n) bs out
        → 0 < length bs
        → read_round ev o fd s ≡ (
            if ltb (length bs) n
            then leave (returned (sized s) s.channel)
            else read_body ev o fd n (record s { globals = sized s }))
    unfolding read_round
    round-body n i h = let e = body-fields s.globals fd n i.mode in rw (← e.1) (ground (arith, e.0))

    round-body_nil :
        (n : ℕ)
        → InStep q fd s (body n) bs out
        → length bs ≡ 0
        → read_round ev o fd s ≡ leave (returned s.globals s.channel)
    unfolding read_round mode_of
    round-body_nil n i h = ground arith

    round-Right : (m : Mode) → InStep q fd s m bs out → Right q fd m bs out (read_round ev o fd s)
    round-Right header i = elim (dec_lt (length bs) 4) [
      | yes short ↦
          rw (round-header i, lt→ltb (length bs) 4 short)
            (stay-Right q o fd s bs out header s.globals i i.mode
              (decode-header_short max_size bs short))
      | no long ↦
          rw (round-header i, le→ltb (length bs) 4 (omega arith))
            (read_header-Right q o fd s bs out i (omega arith))
    ]
    round-Right (body n) i = elim (dec_lt 0 (length bs)) [
      | no no_bytes ↦ rw (round-body_nil n i (omega arith)) (
          stay-Right q o fd s bs out (body n) s.globals i i.mode
            (decode-body_nil max_size bs n (omega arith)))
      | yes some_bytes ↦ elim (dec_lt (length bs) n) [
        | yes short ↦
            rw (round-body n i some_bytes, lt→ltb (length bs) n short)
              (stay-Right q o fd s bs out (body n) (sized s) i
                (mode_of-touch_size s.globals fd fd ∙ i.mode)
                (decode-body_short max_size bs n short))
        | no long ↦
            rw (round-body n i some_bytes, le→ltb (length bs) n (omega arith))
              (read_body-Right q o fd (record s { globals = sized s }) bs out
                (record {
                  mode = mode_of-touch_size s.globals fd fd ∙ i.mode;
                  small = i.small;
                  input = i.input;
                  output = i.output;
                  len = i.len;
                })
                some_bytes (omega arith))
      ]
    ]

  -- The loop's variables agree with a decoder that ends in the target within `k` rounds.
  abbrev Towards : Seen → ℕ → Reading ev → Type 0
  Towards target k s =
      (m : Mode) × (bs : Bytes) × (out : Bytes) × InStep q fd s m bs out
      × (echoed out (decode max_size m bs) ≡ target)
      × (rounds m bs < k)

  Towards-round :
      (target : Seen) (k : ℕ) (s : Reading ev)
      → Towards target (suc k) s
      → After (Towards target) (λ r. see q fd r ≡ target) k (read_round ev o fd s)
  Towards-round target k s (m, bs, out, i, e, less) =
      go (read_round ev o fd s) (round-Right s bs out m i)
    where
      go :
          (c : Control (Reading ev) (Called ev))
          → Right q fd m bs out c
          → After (Towards target) (λ r. see q fd r ≡ target) k c
      go (leave r) e' = e' ∙ e
      go (again s') (m', bs', out', i', e', less') = (m', bs', out', i', sym e' ∙ e, omega arith)

  -- For any bytes in the input and any state of the connection's session, `readcb` returns within
  -- its fuel; it echoes the messages that the decoder finds, each with its header and in order, and
  -- leaves the decoder's mode and the unread bytes behind. It ends the process exactly where a
  -- header announces more than 1000 bytes.
  pub readcb-echoed :
      (g : Globals) (c : Channel ev)
      → IsSmall (mode_of g fd)
      → (r : Called ev) × (readcb ev o fd g c ≡ some r)
        × (see q fd r
            ≡ echoed (q.bytes c.output) (decode max_size (mode_of g fd) (q.bytes c.input)))
  unfolding readcb
  readcb-echoed g c small =
      repeat_total (Towards _) (λ r. see q fd r ≡ _) (read_round ev o fd)
        (λ s t. absurd (omega (arith, t.5))) (Towards-round _) _ (reading ev o fd g c)
        (mode_of g fd, q.bytes c.input, q.bytes c.output, begun, refl, enough (mode_of g fd))
    where
      begun : InStep q fd (reading ev o fd g c) (mode_of g fd) (q.bytes c.input) (q.bytes c.output)
      begun = record {
        mode = mode_of-touch_header g fd fd;
        small = small;
        input = refl;
        output = refl;
        len = q.get_length_lem c.input;
      }

      enough : (m : Mode) → rounds m (q.bytes c.input) < suc (suc (2 * ev.get_length c.input))
      enough header = omega (arith, q.get_length_lem c.input)
      enough (body n) = omega (arith, q.get_length_lem c.input)

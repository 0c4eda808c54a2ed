-- ===== src/PerfLibevent/Round.antt =====
-- One round of the loop in `readcb` of dev_examples/perf_libevent/server.cpp is a step of the decoder.
use native.Mathlib.Decide.{dec_lt}
use test_code.Prelude.{
  ℕ, ◌^◌, ◌%◌, ◌≤◌, ◌<◌, ◌≡◌, refl, sym, ap, ap₂, ◌∙◌, Bool, true, false, [], ◌∷◌, ◌++◌, arith,
  le→ltb, lt→ltb, length, take, drop, length-drop, length-take, if◌then◌else◌, Control, again,
  leave,
}
use test_code.Prelude.Map.{insert}
use test_code.Wire.{
  Bytes, ByteOrder, ntohl, load_u32, be32, fill, be32-fill, fill-take, ntohl-load_u32,
  store_u32-htonl,
}
use test_code.Libevent.{Libevent, Channel, IsByteQueue}
use test_code.Framing.{Mode, header, body, wait, rounds, decode, encode, encode_all}
use test_code.Framing.Decode.{
  decode-header_big, decode-header_fits, decode-header_short, decode-body, decode-body_short,
}
use test_code.Framing.Echo.{
  Seen, open_at, ended, echoed, echoed-wait, echoed-prepend, encode_all-one,
}
use test_code.PerfLibevent.{
  Globals, Called, returned, exited, Reading, max_size, reply, read_header, read_body,
}
use test_code.PerfLibevent.Mode.{mode_of, IsSmall, mode_of-size, mode_of-done}

module _ {ev : Libevent} (q : IsByteQueue ev) (fd : ℕ) where
  abbrev pub see : Called ev → Seen
  see (returned g c) = open_at (mode_of g fd) (q.bytes c.input) (q.bytes c.output)
  see exited = ended

  -- The loop's variables in step with a decoder.
  pub record InStep (s : Reading ev) (m : Mode) (bs out : Bytes) : Type 0 where
    pub mode : mode_of s.globals fd ≡ m
    pub small : IsSmall m
    pub input : q.bytes s.channel.input ≡ bs
    pub output : q.bytes s.channel.output ≡ out
    pub len : s.input_len ≡ length bs

  -- A round that leaves the loop shows what the decoder ends in; any other one leaves it to a
  -- decoder with fewer rounds to go.
  abbrev pub Right : Mode → Bytes → Bytes → Control (Reading ev) (Called ev) → Type 0
  Right m bs out (leave r) = see r ≡ echoed out (decode max_size m bs)
  Right m bs out (again s) =
      (m' : Mode) × (bs' : Bytes) × (out' : Bytes) × InStep s m' bs' out'
      × (echoed out (decode max_size m bs) ≡ echoed out' (decode max_size m' bs'))
      × (rounds m' bs' < rounds m bs)

module _ {ev : Libevent} (q : IsByteQueue ev) (o : ByteOrder) (fd : ℕ) where
  reply-encode : (p : Bytes) → length p < 2 ^ 32 → reply ev o p ≡ encode p
  unfolding reply encode
  reply-encode p h =
      let same : length p % 2 ^ 32 ≡ length p = omega arith in
      rw (same, store_u32-htonl o (length p))

  module _ (s : Reading ev) (bs out : Bytes) where
    abbrev taken : ℕ → Bytes × ev.Evbuffer
    taken n = ev.remove s.channel.input n

    taken_data : {m : Mode} (n : ℕ) → InStep q fd s m bs out → (taken n).0 ≡ take n bs
    taken_data n i = q.remove_data s.channel.input n ∙ ap (take n) i.input

    taken_rest : {m : Mode} (n : ℕ) → InStep q fd s m bs out → q.bytes (taken n).1 ≡ drop n bs
    taken_rest n i = q.remove_rest s.channel.input n ∙ ap (drop n) i.input

    taken-length :
        {m : Mode} (n : ℕ) → InStep q fd s m bs out → ev.get_length (taken n).1 ≡ length (drop n bs)
    taken-length n i = q.get_length_lem (taken n).1 ∙ ap length (taken_rest n i)

    header_size :
        InStep q fd s header bs out
        → 4 ≤ length bs
        → ntohl o (load_u32 o (fill 4 (taken 4).0)) ≡ be32 bs
    header_size i h =
        ntohl-load_u32 o (fill 4 (taken 4).0)
        ∙ ap (λ d. be32 (fill 4 d)) (taken_data 4 i)
        ∙ be32-fill bs h

    -- The end of both kinds of round: `break` where the decoder would wait, or go on.
    go_on :
        (m : Mode) (g : Globals) (c : Channel ev) (m' : Mode) (bs' out' : Bytes) (stuck : Bool)
        → InStep q fd (record { globals = g; channel = c; input_len = length bs' }) m' bs' out'
        → echoed out (decode max_size m bs) ≡ echoed out' (decode max_size m' bs')
        → rounds m' bs' < rounds m bs
        → (stuck ≡ true → decode max_size m' bs' ≡ wait m' bs')
        → Right q fd m bs out (
            if stuck
            then leave (returned g c)
            else again (record { globals = g; channel = c; input_len = length bs' }))
    go_on m g c m' bs' out' true i e less w =
        cc (i.mode, i.input, i.output, e, w refl, echoed-wait out' m' bs')
    go_on m g c m' bs' out' false i e less w = (m', bs', out', i, e, less)

    pub read_header-Right :
        InStep q fd s header bs out
        → 4 ≤ length bs
        → Right q fd header bs out (read_header ev o fd s)
    unfolding read_header
    read_header-Right i h =
        rw (header_size i h, taken-length 4 i)
          (elim (dec_lt max_size (be32 bs)) [
            | yes big ↦ rw (lt→ltb max_size (be32 bs) big) (refused_right big)
            | no fits ↦ rw (le→ltb max_size (be32 bs) (omega arith)) (
                go_on header _ _ (body (be32 bs)) (drop 4 bs) out _ (begun (omega arith))
                  (ap (echoed out) (decode-header_fits max_size bs h (omega arith)))
                  (omega (arith, length-drop 4 bs))
                  (λ short. decode-body_short max_size (drop 4 bs) (be32 bs) (ground arith)))
          ])
      where
        refused_right : max_size < be32 bs → Right q fd header bs out (leave exited)
        refused_right big = rw (decode-header_big max_size bs h big)

        begun :
            be32 bs ≤ max_size
            → InStep q fd
                (record {
                  globals = record {
                    recv_header = insert fd 0 s.globals.recv_header;
                    session_info = insert fd (be32 bs) s.globals.session_info;
                  };
                  channel = record s.channel { input = (taken 4).1 };
                  input_len = length (drop 4 bs);
                })
                (body (be32 bs))
                (drop 4 bs)
                out
        begun fits = record {
          mode = mode_of-size s.globals fd (be32 bs);
          small = fits;
          input = taken_rest 4 i;
          output = i.output;
          len = refl;
        }

    body_data :
        {n : ℕ}
        → InStep q fd s (body n) bs out
        → n ≤ length bs
        → reply ev o (fill n (taken n).0) ≡ encode (take n bs)
    body_data {n} i h =
        ap (λ d. reply ev o (fill n d)) (taken_data n i)
        ∙ ap (reply ev o) (fill-take n bs h)
        ∙ reply-encode (take n bs) (omega (arith, length-take n bs, i.small))

    pub read_body-Right :
        {n : ℕ}
        → InStep q fd s (body n) bs out
        → 0 < length bs
        → n ≤ length bs
        → Right q fd (body n) bs out (read_body ev o fd n s)
    unfolding read_body
    read_body-Right {n} i some_bytes h = rw (taken-length n i) (
        go_on (body n) _ _ header (drop n bs) (out ++ encode_all (take n bs ∷ [])) _ written
          (ap (echoed out) (decode-body max_size bs n some_bytes h)
            ∙ echoed-prepend out (take n bs ∷ []) (decode max_size header (drop n bs)))
          (omega (arith, length-drop n bs))
          (λ short. decode-header_short max_size (drop n bs) (ground arith)))
      where
        written :
            InStep q fd
              (record {
                globals = record s.globals { recv_header = insert fd 1 s.globals.recv_header };
                channel = record {
                  input = (taken n).1;
                  output = ev.add s.channel.output (reply ev o (fill n (taken n).0));
                };
                input_len = length (drop n bs);
              })
              header
              (drop n bs)
              (out ++ encode_all (take n bs ∷ []))
        written = record {
          mode = mode_of-done s.globals fd s.globals.session_info;
          small = tt;
          input = taken_rest n i;
          output =
              q.add_lem s.channel.output (reply ev o (fill n (taken n).0))
              ∙ ap₂ ◌++◌ i.output (body_data i h ∙ sym (encode_all-one (take n bs)));
          len = refl;
        }

    pub stay-Right :
        (m : Mode) (g : Globals)
        → InStep q fd s m bs out
        → mode_of g fd ≡ m
        → decode max_size m bs ≡ wait m bs
        → Right q fd m bs out (leave (returned g s.channel))
    stay-Right m g i e w = cc (e, i.input, i.output, w, echoed-wait out m bs)

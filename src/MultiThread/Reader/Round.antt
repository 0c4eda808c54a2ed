-- ===== src/MultiThread/Reader/Round.antt =====
-- One round of the loop in `readcb` of dev_examples/libevent_multithreads/io_cb.cpp is a step of the
-- decoder.
use native.Mathlib.Decide.{dec_lt}
use test_code.Prelude.{
  adjust, ℕ, ◌%◌, ◌≤◌, ◌<◌, ◌≡◌, refl, ap, ◌∙◌, Bool, true, false, arith, lt→ltb, le→ltb,
  if◌then◌else◌, length, take, drop, length-take, length-drop, Control, again, leave,
}
use test_code.Wire.{
  Bytes, ByteOrder, load_u32, ntohl, be32, fill, fill-take, be32-fill, ntohl-load_u32,
}
use test_code.Libevent.{Libevent, Channel, IsByteQueue}
use test_code.CfQueue.{CfQueue}
use test_code.Framing.{Mode, header, body, wait, rounds, decode}
use test_code.Framing.Decode.{
  decode-header_big, decode-header_fits, decode-header_short, decode-body, decode-body_short,
}
use test_code.MultiThread.Reader.{size_limit, Reading, read_header, read_body}
use test_code.MultiThread.Reader.See.{
  session_mode, ele, handled, handled-wait, handled-refuse, handled-prepend, handled-body, see,
  InStep,
}

module _ {ev : Libevent} {cf : CfQueue} (q : IsByteQueue ev) (threads fd : ℕ) where
  -- A round that leaves the loop leaves what the decoder ends in; any other one leaves it to a
  -- decoder with fewer rounds to go.
  abbrev pub Right : Reading ev cf → Mode → Bytes → Control (Reading ev cf) (Reading ev cf) → Type 0
  Right s m bs (leave r) =
      (see q r ≡ handled cf threads fd s.session.body_size s.queues (decode size_limit m bs))
      × (r.session.body_size ≤ size_limit)
  Right s m bs (again s') =
      (m' : Mode) × (bs' : Bytes) × InStep q s' m' bs'
      × (handled cf threads fd s.session.body_size s.queues (decode size_limit m bs)
          ≡ handled cf threads fd s'.session.body_size s'.queues (decode size_limit m' bs'))
      × (rounds m' bs' < rounds m bs)

module _ {ev : Libevent} {cf : CfQueue} (q : IsByteQueue ev) (o : ByteOrder) (threads fd : ℕ)
    (s : Reading ev cf) (bs : Bytes) where
  abbrev taken : ℕ → Bytes × ev.Evbuffer
  taken n = ev.remove s.session.bev.input n

  taken_data : {m : Mode} (n : ℕ) → InStep {cf = cf} q s m bs → (taken n).0 ≡ take n bs
  taken_data n i = q.remove_data s.session.bev.input n ∙ ap (take n) i.input

  taken_rest : {m : Mode} (n : ℕ) → InStep {cf = cf} q s m bs → q.bytes (taken n).1 ≡ drop n bs
  taken_rest n i = q.remove_rest s.session.bev.input n ∙ ap (drop n) i.input

  taken-length :
      {m : Mode} (n : ℕ)
      → InStep {cf = cf} q s m bs
      → ev.get_length (taken n).1 ≡ length (drop n bs)
  taken-length n i = q.get_length_lem (taken n).1 ∙ ap length (taken_rest n i)

  header_size :
      InStep {cf = cf} q s header bs
      → 4 ≤ length bs
      → ntohl o (load_u32 o (fill 4 (taken 4).0)) ≡ be32 bs
  header_size i h =
      ntohl-load_u32 o (fill 4 (taken 4).0)
      ∙ ap (λ d. be32 (fill 4 d)) (taken_data 4 i)
      ∙ be32-fill bs h

  -- The end of both kinds of round: `break` where the decoder would wait, or go on.
  go_on :
      (m : Mode) (s' : Reading ev cf) (m' : Mode) (bs' : Bytes) (stuck : Bool)
      → InStep q s' m' bs'
      → handled cf threads fd s.session.body_size s.queues (decode size_limit m bs)
        ≡ handled cf threads fd s'.session.body_size s'.queues (decode size_limit m' bs')
      → rounds m' bs' < rounds m bs
      → (stuck ≡ true → decode size_limit m' bs' ≡ wait m' bs')
      → Right q threads fd s m bs (if stuck then leave s' else again s')
  go_on m s' m' bs' true i e less w = (
    cc (
      i.mode,
      i.input,
      e,
      w refl,
      handled-wait cf threads fd s'.session.body_size s'.queues m' bs',
    ),
    i.small,
  )
  go_on m s' m' bs' false i e less w = (m', bs', i, e, less)

  pub read_header-Right :
      InStep q s header bs
      → 4 ≤ length bs
      → Right q threads fd s header bs (read_header ev cf o threads s)
  unfolding read_header
  read_header-Right i h =
      rw (header_size i h, taken-length 4 i)
        (elim (dec_lt size_limit (be32 bs)) [
          | yes big ↦ rw (lt→ltb size_limit (be32 bs) big) (refused_right big)
          | no fits ↦ rw (le→ltb size_limit (be32 bs) (omega arith)) (
              go_on header _ (body (be32 bs)) (drop 4 bs) _ (begun (omega arith))
                (ap (handled cf threads fd s.session.body_size s.queues)
                    (decode-header_fits size_limit bs h (omega arith))
                  ∙ handled-body cf threads fd s.session.body_size (be32 bs) (be32 bs) s.queues
                      (drop 4 bs))
                (omega (arith, length-drop 4 bs))
                (λ short. decode-body_short size_limit (drop 4 bs) (be32 bs) (ground arith)))
        ])
    where
      bev' : Channel ev
      bev' = record s.session.bev { input = (taken 4).1 }

      zero_mode :
          session_mode (record s.session { recving_header = 0; bev = bev' })
          ≡ body s.session.body_size
      zero_mode = unfold session_mode in refl

      refused_right :
          size_limit < be32 bs
          → Right q threads fd s header bs
              (leave (record s { session = record s.session { recving_header = 0; bev = bev' } }))
      refused_right big = (
        cc (
          zero_mode,
          taken_rest 4 i,
          decode-header_big size_limit bs h big,
          handled-refuse cf threads fd s.session.body_size s.queues (drop 4 bs),
        ),
        i.small,
      )

      begun :
          be32 bs ≤ size_limit
          → InStep {cf = cf} q
              (record {
                session = record { recving_header = 0; body_size = be32 bs; bev = bev' };
                queues = s.queues;
                input_len = length (drop 4 bs);
              })
              (body (be32 bs))
              (drop 4 bs)
      begun fits = record {
        mode = unfold session_mode in refl;
        small = fits;
        input = taken_rest 4 i;
        len = refl;
        in_int = omega (arith, length-drop 4 bs, i.in_int);
      }

  body_data :
      InStep q s (body s.session.body_size) bs
      → s.session.body_size ≤ length bs
      → fill s.session.body_size (taken s.session.body_size).0 ≡ take s.session.body_size bs
  body_data i h =
      ap (fill s.session.body_size) (taken_data s.session.body_size i)
      ∙ fill-take s.session.body_size bs h

  pub read_body-Right :
      InStep q s (body s.session.body_size) bs
      → 0 < length bs
      → s.session.body_size ≤ length bs
      → Right q threads fd s (body s.session.body_size) bs (read_body ev cf o threads fd s)
  unfolding read_body
  read_body-Right i some_bytes h =
      rw (body_data i h, taken-length n i)
        (go_on (body n) _ header (drop n bs) _ ended
          (ap (handled cf threads fd n s.queues) (decode-body size_limit bs n some_bytes h)
            ∙ handled-prepend cf threads fd n s.queues (take n bs)
                (decode size_limit header (drop n bs))
            ∙ ap
                (λ k.
                  handled cf threads fd k
                    (adjust (fd % threads) (λ c. cf.put c (ele fd (take n bs))) s.queues)
                    (decode size_limit header (drop n bs)))
                whole)
          (omega (arith, length-drop n bs))
          (λ short. decode-header_short size_limit (drop n bs) (ground arith)))
    where
      n : ℕ
      n = s.session.body_size

      whole : length (take n bs) ≡ n
      whole = omega (arith, length-take n bs)

      ended :
          InStep {cf = cf} q
            (record {
              session = record {
                recving_header = 1;
                body_size = n;
                bev = record s.session.bev { input = (taken n).1 };
              };
              queues = adjust (fd % threads) (λ c. cf.put c (ele fd (take n bs))) s.queues;
              input_len = length (drop n bs);
            })
            header
            (drop n bs)
      ended = record {
        mode = unfold session_mode in refl;
        small = i.small;
        input = taken_rest n i;
        len = refl;
        in_int = omega (arith, length-drop n bs, i.in_int);
      }

  pub stay-Right :
      (m : Mode)
      → InStep q s m bs
      → decode size_limit m bs ≡ wait m bs
      → Right q threads fd s m bs (leave s)
  stay-Right m i w = (
    cc (i.mode, i.input, w, handled-wait cf threads fd s.session.body_size s.queues m bs),
    i.small,
  )

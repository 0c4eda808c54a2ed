-- ===== src/MultiThread/Reader/Read.antt =====
-- `readcb` of dev_examples/libevent_multithreads/io_cb.cpp implements the protocol's decoder.
use native.Mathlib.Decide.{dec_lt}
use test_code.Prelude.{
  ap, ℕ, suc, ◌*◌, ◌^◌, ◌≤◌, ◌<◌, ◌≡◌, refl, sym, subst, ◌∙◌, some, List, arith, ltb, lt→ltb,
  le→ltb, if◌then◌else◌, length, Control, again, leave, After, repeat_total,
}
use test_code.Wire.{Bytes, ByteOrder}
use test_code.Libevent.{Libevent, IsByteQueue}
use test_code.CfQueue.{CfQueue}
use test_code.Framing.{Mode, header, body, rounds, decode}
use test_code.Framing.Decode.{decode-header_short, decode-body_short, decode-body_nil}
use test_code.MultiThread.Reader.{
  Session, size_limit, Reading, read_header, read_body, read_round, read_all, reading,
}
use test_code.MultiThread.Reader.See.{session_mode, Target, handled, see, InStep}
use test_code.MultiThread.Reader.Round.{Right, read_header-Right, read_body-Right, stay-Right}

module _ {ev : Libevent} {cf : CfQueue} (q : IsByteQueue ev) (o : ByteOrder) (threads fd : ℕ) where
  module _ (s : Reading ev cf) (bs : Bytes) where
    round-header :
        InStep q s header bs
        → read_round ev cf o threads fd s
          ≡ (if ltb (length bs) 4 then leave s else read_header ev cf o threads s)
    unfolding read_round session_mode
    round-header i = ground arith

    round-body :
        (n : ℕ)
        → InStep q s (body n) bs
        → 0 < length bs
        → read_round ev cf o threads fd s
          ≡ (if ltb (length bs) n then leave s else read_body ev cf o threads fd s)
    unfolding read_round session_mode
    round-body n i h = ground arith

    round-body_nil :
        (n : ℕ) → InStep q s (body n) bs → length bs ≡ 0 → read_round ev cf o threads fd s ≡ leave s
    unfolding read_round
    round-body_nil n i h = ground arith

    body-size : (n : ℕ) → InStep q s (body n) bs → s.session.body_size ≡ n
    unfolding session_mode
    body-size n i = ground (arith, i.mode)

    round-Right :
        (m : Mode) → InStep q s m bs → Right q threads fd s m bs (read_round ev cf o threads fd s)
    round-Right header i = elim (dec_lt (length bs) 4) [
      | yes short ↦
          rw (round-header i, lt→ltb (length bs) 4 short)
            (stay-Right q o threads fd s bs header i (decode-header_short size_limit bs short))
      | no long ↦
          rw (round-header i, le→ltb (length bs) 4 (omega arith))
            (read_header-Right q o threads fd s bs i (omega arith))
    ]
    round-Right (body n) i = elim (dec_lt 0 (length bs)) [
      | no no_bytes ↦ rw (round-body_nil n i (omega arith)) (
          stay-Right q o threads fd s bs (body n) i (decode-body_nil size_limit bs n (omega arith)))
      | yes some_bytes ↦ elim (dec_lt (length bs) n) [
        | yes short ↦
            rw (round-body n i some_bytes, lt→ltb (length bs) n short)
              (stay-Right q o threads fd s bs (body n) i (decode-body_short size_limit bs n short))
        | no long ↦
            rw (round-body n i some_bytes, le→ltb (length bs) n (omega arith))
              (full n (body-size n i) i some_bytes (omega arith))
      ]
    ]
      where
        full :
            (n : ℕ)
            → s.session.body_size ≡ n
            → InStep q s (body n) bs
            → 0 < length bs
            → n ≤ length bs
            → Right q threads fd s (body n) bs (read_body ev cf o threads fd s)
        full n e i h k =
            subst (λ x. Right q threads fd s (body x) bs (read_body ev cf o threads fd s)) e
              (read_body-Right q o threads fd s bs (subst (λ x. InStep q s (body x) bs) (sym e) i) h
                (omega arith))

  -- The loop's variables agree with a decoder that ends in the target within `k` rounds.
  abbrev Towards : Target cf → ℕ → Reading ev cf → Type 0
  Towards t k s =
      (m : Mode) × (bs : Bytes) × InStep q s m bs
      × (handled cf threads fd s.session.body_size s.queues (decode size_limit m bs) ≡ t)
      × (rounds m bs < k)

  abbrev Reached : Target cf → Reading ev cf → Type 0
  Reached t r = (see q r ≡ t) × (r.session.body_size ≤ size_limit)

  Towards-round :
      (t : Target cf) (k : ℕ) (s : Reading ev cf)
      → Towards t (suc k) s
      → After (Towards t) (Reached t) k (read_round ev cf o threads fd s)
  Towards-round t k s (m, bs, i, e, less) =
      go (read_round ev cf o threads fd s) (round-Right s bs m i)
    where
      go :
          (c : Control (Reading ev cf) (Reading ev cf))
          → Right q threads fd s m bs c
          → After (Towards t) (Reached t) k c
      go (leave r) (e', small) = (e' ∙ e, small)
      go (again s') (m', bs', i', e', less') = (m', bs', i', sym e' ∙ e, omega arith)

  -- The loop of `readcb` ends, for a session whose size is within the limit and an input shorter than
  -- 2 ^ 31 bytes. The messages that the decoder finds in the input are then put, in order, into the
  -- worker queue of the descriptor; the session is left in the decoder's mode with the decoder's rest
  -- unread, or, after a header that the decoder refuses, in the body of the size before it; and the
  -- size is within the limit again.
  pub read_all-handled :
      (si : Session ev) (queues : List cf.Queue)
      → si.body_size ≤ size_limit
      → length (q.bytes si.bev.input) < 2 ^ 31
      → (r : Reading ev cf) × (read_all ev cf o threads fd si queues ≡ some r)
        × (see q r
            ≡ handled cf threads fd si.body_size queues
                (decode size_limit (session_mode si) (q.bytes si.bev.input)))
        × (r.session.body_size ≤ size_limit)
  unfolding read_all
  read_all-handled si queues small fits =
      let (r, e, seen) =
        repeat_total (Towards _) (Reached _) (read_round ev cf o threads fd)
          (λ s t. absurd (omega (arith, t.4))) (Towards-round _)
          (suc (suc (2 * ev.get_length si.bev.input))) (reading ev cf si queues)
          (session_mode si, q.bytes si.bev.input, begun, refl, enough (session_mode si)) in
      (r, e, seen.0, seen.1)
    where
      begun : InStep q (reading ev cf si queues) (session_mode si) (q.bytes si.bev.input)
      begun = record {
        mode = refl;
        small = small;
        input = refl;
        len = q.get_length_lem si.bev.input;
        in_int = fits;
      }

      enough :
          (m : Mode) → rounds m (q.bytes si.bev.input) < suc (suc (2 * ev.get_length si.bev.input))
      enough header = omega (arith, q.get_length_lem si.bev.input)
      enough (body n) = omega (arith, q.get_length_lem si.bev.input)

  -- The same of what the loop is known to end in.
  pub read_all-seen :
      (si : Session ev) (queues : List cf.Queue) (r : Reading ev cf)
      → si.body_size ≤ size_limit
      → length (q.bytes si.bev.input) < 2 ^ 31
      → read_all ev cf o threads fd si queues ≡ some r
      → see q r
        ≡ handled cf threads fd si.body_size queues
            (decode size_limit (session_mode si) (q.bytes si.bev.input))
  read_all-seen si queues r small fits e =
      let (r', e', seen, _) = read_all-handled si queues small fits in go r' e' seen
    where
      go :
          (r' : Reading ev cf)
          → read_all ev cf o threads fd si queues ≡ some r'
          → see q r'
            ≡ handled cf threads fd si.body_size queues
                (decode size_limit (session_mode si) (q.bytes si.bev.input))
          → see q r
            ≡ handled cf threads fd si.body_size queues
                (decode size_limit (session_mode si) (q.bytes si.bev.input))
      go r' e' seen = let same : r ≡ r' = cc in ap (see q) same ∙ seen

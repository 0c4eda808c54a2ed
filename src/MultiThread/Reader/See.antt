-- ===== src/MultiThread/Reader/See.antt =====
-- What is seen of the loop in `readcb` of dev_examples/libevent_multithreads/io_cb.cpp, beside what the
-- decoder makes of the same bytes.
use native.Mathlib.Decide.{dec_lt}
use test_code.Prelude.{
  adjust, ℕ, ◌%◌, ◌^◌, ◌≤◌, ◌<◌, ◌≡◌, refl, sym, ◌∙◌, List, [], ◌∷◌, arith, ◌==◌, if◌then◌else◌,
  length, take, drop, map,
}
use test_code.Wire.{Bytes}
use test_code.Libevent.{Libevent, IsByteQueue}
use test_code.CfQueue.{CfQueue, QueueEle}
use test_code.Framing.{
  Mode, header, body, Stop, waiting, refused, Decoded, wait, refuse, prepend, decode,
}
use test_code.Framing.Decode.{decode-body, decode-body_short, decode-body_nil}
use test_code.MultiThread.Reader.{Session, size_limit, Reading}

unfoldable pub session_mode : {ev : Libevent} → Session ev → Mode
session_mode s = if s.recving_header == 0 then body s.body_size else header

abbrev pub ele : ℕ → Bytes → QueueEle
ele fd p = record { fd = fd; payload = p }

-- Elements put into one of the queues, in order.
unfoldable pub put_all : (cf : CfQueue) → ℕ → List QueueEle → List cf.Queue → List cf.Queue
put_all cf i [] qs = qs
put_all cf i (e ∷ es) qs = put_all cf i es (adjust i (λ c. cf.put c e) qs)

-- The size that a session is left with by its last message; `k` if there is none.
unfoldable pub last_length : ℕ → List Bytes → ℕ
last_length k [] = k
last_length k (p ∷ ps) = last_length (length p) ps

-- The session's mode, its unread bytes, the worker queues.
pub data Target (cf : CfQueue) : Type 0 where
  target : Mode → Bytes → List cf.Queue → Target cf

-- The decoder's end as `readcb` leaves it. After a refused header the session takes what follows for
-- a body of the size that it had before.
abbrev pub mode_after : ℕ → List Bytes → Stop → Mode
mode_after k ps (waiting m) = m
mode_after k ps refused = body (last_length k ps)

module _ (cf : CfQueue) (threads fd : ℕ) where
  abbrev pub handled : ℕ → List cf.Queue → Decoded → Target cf
  handled k qs d =
      target (mode_after k d.messages d.stop) d.rest
        (put_all cf (fd % threads) (map (ele fd) d.messages) qs)

  pub handled-wait :
      (k : ℕ) (qs : List cf.Queue) (m : Mode) (bs : Bytes)
      → handled k qs (wait m bs) ≡ target m bs qs
  unfolding put_all
  handled-wait k qs m bs = refl

  pub handled-refuse :
      (k : ℕ) (qs : List cf.Queue) (bs : Bytes) → handled k qs (refuse bs) ≡ target (body k) bs qs
  unfolding put_all last_length
  handled-refuse k qs bs = refl

  handled-prepend_at :
      (k : ℕ) (qs : List cf.Queue) (p : Bytes) (ms : List Bytes) (st : Stop) (rest : Bytes)
      → handled k qs (record { messages = p ∷ ms; stop = st; rest = rest })
        ≡ handled
            (length p)
            (adjust (fd % threads) (λ c. cf.put c (ele fd p)) qs)
            (record { messages = ms; stop = st; rest = rest })
  unfolding put_all last_length
  handled-prepend_at k qs p ms (waiting m) rest = refl
  handled-prepend_at k qs p ms refused rest = refl

  pub handled-prepend :
      (k : ℕ) (qs : List cf.Queue) (p : Bytes) (d : Decoded)
      → handled k qs (prepend (p ∷ []) d)
        ≡ handled (length p) (adjust (fd % threads) (λ c. cf.put c (ele fd p)) qs) d
  handled-prepend k qs p d = handled-prepend_at k qs p d.messages d.stop d.rest

  -- In a body the size before it does not count.
  pub handled-body :
      (k k' n : ℕ) (qs : List cf.Queue) (bs : Bytes)
      → handled k qs (decode size_limit (body n) bs) ≡ handled k' qs (decode size_limit (body n) bs)
  handled-body k k' n qs bs = elim (dec_lt 0 (length bs)) [
    | no no_bytes ↦ rw (decode-body_nil size_limit bs n (omega arith))
    | yes some_bytes ↦ elim (dec_lt (length bs) n) [
      | yes short ↦ rw (decode-body_short size_limit bs n short)
      | no long ↦
          let d = decode size_limit header (drop n bs) in
          rw (decode-body size_limit bs n some_bytes (omega arith))
            (handled-prepend k qs (take n bs) d ∙ sym (handled-prepend k' qs (take n bs) d))
    ]
  ]

module _ {ev : Libevent} {cf : CfQueue} (q : IsByteQueue ev) where
  abbrev pub see : Reading ev cf → Target cf
  see s = target (session_mode s.session) (q.bytes s.session.bev.input) s.queues

  -- The loop's variables in step with a decoder.
  pub record InStep (s : Reading ev cf) (m : Mode) (bs : Bytes) : Type 0 where
    pub mode : session_mode s.session ≡ m
    pub small : s.session.body_size ≤ size_limit
    pub input : q.bytes s.session.bev.input ≡ bs
    pub len : s.input_len ≡ length bs
    pub in_int : length bs < 2 ^ 31

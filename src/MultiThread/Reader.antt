-- ===== src/MultiThread/Reader.antt =====
-- `readcb` of dev_examples/libevent_multithreads/io_cb.cpp, and SessionInfo of session_info.hpp.
pub mod See
pub mod Round
pub mod Read
pub mod Feed
use test_code.Prelude.{
  adjust, ℕ, zero, suc, ◌*◌, ◌%◌, ◌^◌, Bool, ◌&&◌, Option, none, some, List, [], ◌∷◌, ltb, leb,
  ◌==◌, if◌then◌else◌, Control, again, leave, repeat,
}
use test_code.Prelude.Map.{lookup, insert}
use test_code.Wire.{ByteOrder, load_u32, ntohl, fill}
use test_code.Libevent.{Libevent, Channel}
use test_code.CfQueue.{CfQueue, QueueEle}

-- SessionInfo. It owns its bufferevent, which its destructor frees. The size passed the test
-- against the limit before it was stored in an `int`, so it is a number.
pub record Session (ev : Libevent) : Type 0 where
  pub recving_header : ℕ
  pub body_size : ℕ
  pub bev : Channel ev

unfoldable pub new_session : {ev : Libevent} → Channel ev → Session ev
new_session c = record { recving_header = 1; body_size = 0; bev = c }

abbrev pub size_limit : ℕ
size_limit = 1024000

-- `int(input_len)>=size`, for a size that is not negative.
abbrev pub int_ge : ℕ → ℕ → Bool
int_ge len size = ltb (len % 2 ^ 32) (2 ^ 31) && leb size (len % 2 ^ 32)

module _ (ev : Libevent) (cf : CfQueue) where
  -- The variables of the loop in `readcb`.
  pub record Reading : Type 0 where
    pub session : Session ev
    pub queues : List cf.Queue
    pub input_len : ℕ

  -- `(*sessions)[fd]` of a missing descriptor is a null pointer, which `readcb` goes through.
  pub data Called : Type 0 where
    returned : List (ℕ × Session ev) → List cf.Queue → Called
    crashed : Called

  abbrev pub reading : Session ev → List cf.Queue → Reading
  reading si queues = record {
    session = si;
    queues = queues;
    input_len = ev.get_length si.bev.input;
  }

module _ (ev : Libevent) (cf : CfQueue) (o : ByteOrder) (threads : ℕ) where
  abbrev pub Round : Type 0
  Round = Control (Reading ev cf) (Reading ev cf)

  unfoldable pub read_header : Reading ev cf → Round
  read_header s =
      let (raw, input) = ev.remove s.session.bev.input 4 in
      let size = ntohl o (load_u32 o (fill 4 raw)) in
      let bev : Channel ev = record s.session.bev { input = input } in
      let input_len = ev.get_length input in
      let session : Session ev = record s.session { recving_header = 0; bev = bev } in
      let sized : Reading ev cf = record {
        session = record session { body_size = size };
        queues = s.queues;
        input_len = input_len;
      } in
      if ltb size_limit size
      then leave (record s { session = session })
      else if ltb input_len size
      then leave sized
      else again sized

  unfoldable pub read_body : ℕ → Reading ev cf → Round
  read_body fd s =
      let (raw, input) = ev.remove s.session.bev.input s.session.body_size in
      let qe : QueueEle = record { fd = fd; payload = fill s.session.body_size raw } in
      let bev : Channel ev = record s.session.bev { input = input } in
      let input_len = ev.get_length input in
      let s' : Reading ev cf = record {
        session = record s.session { recving_header = 1; bev = bev };
        queues = adjust (fd % threads) (λ c. cf.put c qe) s.queues;
        input_len = input_len;
      } in
      if ltb input_len 4 then leave s' else again s'

  -- One round of `while(input_len>0)`, its test included.
  unfoldable pub read_round : ℕ → Reading ev cf → Round
  read_round fd s =
      if ltb 0 s.input_len
      then if s.session.recving_header == 0
        then if int_ge s.input_len s.session.body_size then read_body fd s else leave s
        else if leb 4 s.input_len
        then read_header s
        else leave s
      else leave s

  abbrev pub called : ℕ → List (ℕ × Session ev) → Option (Reading ev cf) → Option (Called ev cf)
  called fd sessions none = none
  called fd sessions (some s) = some (returned (insert fd s.session sessions) s.queues)

  -- `none` would mean that the loop did not end within the fuel.
  unfoldable pub read_all : ℕ → Session ev → List cf.Queue → Option (Reading ev cf)
  read_all fd si queues =
      repeat (suc (suc (2 * ev.get_length si.bev.input))) (read_round fd) (reading ev cf si queues)

  unfoldable pub readcb : ℕ → List (ℕ × Session ev) → List cf.Queue → Option (Called ev cf)
  unfolding read_all
  readcb fd sessions queues = elim (lookup fd sessions) [
    | none ↦ some crashed
    | some si ↦ called fd sessions (read_all fd si queues)
  ]

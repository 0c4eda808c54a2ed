-- ===== src/Tests/Buffers.antt =====
-- A byte queue that meets the laws asked of libevent's evbuffers, the list of its bytes, and a message
-- queue as a list.
use test_code.Prelude.{◌≡◌, refl, List, [], ◌∷◌, ◌++◌, Option, none, some, length, take, drop}
use test_code.CfQueue.{QueueEle, CfQueue, IsFifo}
use test_code.Wire.{Bytes}
use test_code.Libevent.{Libevent, IsByteQueue}

abbrev pub list_buffers : Libevent
list_buffers = record {
  Evbuffer = Bytes;
  empty = [];
  get_length = λ b. length b;
  remove = λ b n. (take n b, drop n b);
  add = λ b d. b ++ d;
}

abbrev pub list_queue : IsByteQueue list_buffers
list_queue = record {
  bytes = λ b. b;
  empty_lem = refl;
  get_length_lem = λ b. refl;
  remove_data = λ b n. refl;
  remove_rest = λ b n. refl;
  add_lem = λ b d. refl;
}

-- A queue of messages as the list of them.
abbrev take_first : List QueueEle → Option (QueueEle × List QueueEle)
take_first [] = none
take_first (e ∷ r) = some (e, r)

abbrev pub list_cf : CfQueue
list_cf = record {
  Queue = List QueueEle;
  fresh = [];
  put = λ c e. c ++ e ∷ [];
  take_one = take_first;
}

pub take_first_nil : (c : List QueueEle) → c ≡ [] → take_first c ≡ none
take_first_nil [] h = refl
take_first_nil (e ∷ r) h = cc

pub take_first_cons :
    (c : List QueueEle) (e : QueueEle) (r : List QueueEle)
    → c ≡ e ∷ r
    → (c' : List QueueEle) × (take_first c ≡ some (e, c')) × (c' ≡ r)
take_first_cons [] e r h = cc
take_first_cons (x ∷ xs) e r h = (r, cc, refl)

abbrev pub list_fifo : IsFifo list_cf
list_fifo = record {
  items = λ c. c;
  items-fresh = refl;
  items-put = λ c e. refl;
  take_nil = take_first_nil;
  take-cons = take_first_cons;
}

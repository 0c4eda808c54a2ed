-- ===== src/Tests/Flow.antt =====
-- dev_examples/libevent_multithreads: a client under a descriptor that another one has just left.
use test_code.Prelude.{◌≤◌, ℕ, zero, suc, List, length, refl, ◌≡◌, some, [], ◌∷◌, ◌++◌, arith, All}
use test_code.Prelude.Map.{lookup, insert, erase}
use test_code.Wire.{Bytes, big_endian, fill, load_u32, ntohl, store_u32, htonl, to_be32}
use test_code.Framing.{header, encode, encode_all, IsSendable}
use test_code.MultiThread.Reader.{
  Session, Reading, size_limit, new_session, readcb, read_all, read_round, read_header, read_body,
}
use test_code.MultiThread.Reader.See.{session_mode}
use test_code.MultiThread.Reader.Feed.{read_all-some}
use test_code.MultiThread.Server.{
  State, Result, went, disabled, failed, Action, accepting, arriving, failing, notified, deliver,
  getting, putting, writing, start, answer, insert_new, acceptcb, errorcb, deliver_to, arrive,
  dispatch, deliver_one, get, put, write, act, run,
}
use test_code.MultiThread.Flow.Track.{on_way}
use test_code.MultiThread.Flow.Order.{Spares}
use test_code.MultiThread.Flow.Route.{GoodAfter}
use test_code.MultiThread.Flow.Keep.{run-Good}
use test_code.MultiThread.Flow.Answer.{sent_in_order}
use test_code.MultiThread.Flow.Measure.{Own, work}
use test_code.MultiThread.Flow.End.{HasOutput, answered_in_the_end}
use test_code.MultiThread.Flow.Rest.{AtRest, answered-AtRest}
use test_code.Tests.Buffers.{list_buffers, list_queue, list_cf, list_fifo}

-- The first client sends a message of one byte, and its connection fails before the answer.
abbrev before : List Action
before = accepting (some 5) ∷ arriving 5 (0 ∷ 0 ∷ 0 ∷ 1 ∷ 9 ∷ []) ∷ getting 1 ∷ failing 5 ∷ []

-- The second one sends a message of two bytes, in two pieces.
abbrev more : List Action
more =
    arriving 5 (0 ∷ 0 ∷ 0 ∷ 2 ∷ 7 ∷ [])
    ∷ putting 1
    ∷ writing 1
    ∷ arriving 5 (8 ∷ [])
    ∷ notified 1
    ∷ deliver
    ∷ deliver
    ∷ getting 1
    ∷ putting 1
    ∷ writing 1
    ∷ notified 1
    ∷ deliver
    ∷ deliver
    ∷ []

abbrev message : Bytes
message = 7 ∷ 8 ∷ []

abbrev state_after : Result list_buffers list_cf → State list_buffers list_cf
state_after (went s) = s
state_after disabled = start 2
state_after failed = start 2

abbrev left : State list_buffers list_cf
left = state_after (run big_endian 2 (start 2) before)

abbrev answered : State list_buffers list_cf
answered = state_after (run big_endian 2 left (accepting (some 5) ∷ more))

spares : All (Spares 5) more
spares = (tt, (tt, (tt, (tt, (tt, (tt, (tt, (tt, (tt, (tt, (tt, (tt, (tt, tt)))))))))))))

sendable : All (IsSendable size_limit) (message ∷ [])
sendable = ((omega arith, omega arith), tt)

sent_in_order_example :
    (si : Session list_buffers) × (lookup 5 answered.sessions ≡ some si)
    × (session_mode si ≡ header)
    × (si.bev.input ≡ [])
    × (si.bev.output ++ on_way list_queue list_fifo 2 5 answered
        ≡ on_way list_queue list_fifo 2 5 left ++ encode_all (message ∷ []))
unfolding run act dispatch arrive acceptcb errorcb insert_new deliver_one deliver_to get put write
    start answer readcb read_all new_session read_round read_header read_body lookup insert fill
    load_u32 ntohl store_u32 htonl encode_all encode to_be32 erase
sent_in_order_example =
    sent_in_order list_queue list_fifo 2 5 (omega arith) big_endian before more left answered
      (message ∷ []) refl refl (omega arith) spares sendable refl (omega arith) refl

no_get : (i : ℕ) → act big_endian 2 (getting i) answered ≡ disabled
unfolding run act dispatch arrive acceptcb errorcb insert_new deliver_one deliver_to get put write
    start answer readcb read_all new_session read_round read_header read_body lookup insert fill
    load_u32 ntohl store_u32 htonl erase
no_get zero = refl
no_get (suc zero) = refl
no_get (suc (suc i)) = refl

no_put : (i : ℕ) → act big_endian 2 (putting i) answered ≡ disabled
unfolding run act dispatch arrive acceptcb errorcb insert_new deliver_one deliver_to get put write
    start answer readcb read_all new_session read_round read_header read_body lookup insert fill
    load_u32 ntohl store_u32 htonl erase
no_put zero = refl
no_put (suc zero) = refl
no_put (suc (suc i)) = refl

no_write : (i : ℕ) → act big_endian 2 (writing i) answered ≡ disabled
unfolding run act dispatch arrive acceptcb errorcb insert_new deliver_one deliver_to get put write
    start answer readcb read_all new_session read_round read_header read_body lookup insert fill
    load_u32 ntohl store_u32 htonl erase
no_write zero = refl
no_write (suc zero) = refl
no_write (suc (suc i)) = refl

no_notice : (i : ℕ) → act big_endian 2 (notified i) answered ≡ disabled
unfolding run act dispatch arrive acceptcb errorcb insert_new deliver_one deliver_to get put write
    start answer readcb read_all new_session read_round read_header read_body lookup insert fill
    load_u32 ntohl store_u32 htonl erase
no_notice zero = refl
no_notice (suc zero) = refl
no_notice (suc (suc i)) = refl

no_delivery : act big_endian 2 deliver answered ≡ disabled
unfolding run act dispatch arrive acceptcb errorcb insert_new deliver_one deliver_to get put write
    start answer readcb read_all new_session read_round read_header read_body lookup insert fill
    load_u32 ntohl store_u32 htonl erase
no_delivery = refl

at_rest : AtRest big_endian 2 answered
at_rest = record {
  no_get = no_get;
  no_put = no_put;
  no_write = no_write;
  no_notice = no_notice;
  no_delivery = no_delivery;
}

answered-AtRest_example :
    (si : Session list_buffers) × (lookup 5 answered.sessions ≡ some si)
    × (si.bev.output ≡ on_way list_queue list_fifo 2 5 left ++ encode_all (message ∷ []))
unfolding run act dispatch arrive acceptcb errorcb insert_new deliver_one deliver_to get put write
    start answer readcb read_all new_session read_round read_header read_body lookup insert fill
    load_u32 ntohl store_u32 htonl encode_all encode to_be32 erase
answered-AtRest_example =
    answered-AtRest list_queue list_fifo 2 5 (omega arith) big_endian before more left answered
      (message ∷ []) refl refl (omega arith) spares sendable refl (omega arith) refl at_rest

run-Good_example :
    GoodAfter list_queue list_fifo 2 (omega arith) (run big_endian 2 (start 2) before)
run-Good_example = run-Good list_queue list_fifo 2 (omega arith) big_endian before

abbrev long_body : Session list_buffers
long_body = record {
  recving_header = 0;
  body_size = 3;
  bev = record { input = 7 ∷ 8 ∷ []; output = [] };
}

read_all-some_example :
    (r : Reading list_buffers list_cf) × (read_all list_buffers list_cf big_endian 2 5 long_body
        ([] ∷ [] ∷ [])
      ≡ some r)
read_all-some_example = read_all-some list_queue big_endian 2 5 long_body ([] ∷ [] ∷ [])

-- The second client again, up to the last byte that it sends, and the first two steps from there.
abbrev sent : List Action
sent = arriving 5 (0 ∷ 0 ∷ 0 ∷ 2 ∷ 7 ∷ []) ∷ putting 1 ∷ writing 1 ∷ arriving 5 (8 ∷ []) ∷ []

abbrev own : List Action
own = notified 1 ∷ deliver ∷ []

abbrev all_in : State list_buffers list_cf
all_in = state_after (run big_endian 2 left (accepting (some 5) ∷ sent))

abbrev on_the_way : State list_buffers list_cf
on_the_way = state_after (run big_endian 2 all_in own)

answered_in_the_end_example :
    (length own ≤ work list_fifo all_in)
    × ((rest : List Action) × All Own rest
        × ((s3 : State list_buffers list_cf) × (run big_endian 2 on_the_way rest ≡ went s3)
            × AtRest big_endian 2 s3
            × HasOutput list_queue list_fifo 2 5
                (omega arith)
                big_endian
                s3
                (on_way list_queue list_fifo 2 5 left ++ encode_all (message ∷ []))))
unfolding run act dispatch arrive acceptcb errorcb insert_new deliver_one deliver_to get put write
    start answer readcb read_all new_session read_round read_header read_body lookup insert fill
    load_u32 ntohl store_u32 htonl encode_all encode to_be32 erase
answered_in_the_end_example =
    answered_in_the_end list_queue list_fifo 2 5 (omega arith) big_endian before sent own left
      all_in on_the_way (message ∷ []) refl refl (omega arith) (tt, (tt, (tt, (tt, tt)))) sendable
      refl (omega arith) refl (tt, (tt, tt)) refl

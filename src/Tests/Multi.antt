-- ===== src/Tests/Multi.antt =====
-- dev_examples/libevent_multithreads on concrete streams.
use test_code.Prelude.{List, refl, ◌≡◌, some, [], ◌∷◌, arith, ◌≤◌}
use test_code.Wire.{little_endian, big_endian}
use test_code.Framing.{decode}
use test_code.MultiThread.Reader.{Session, Reading, read_all, size_limit}
use test_code.MultiThread.Reader.See.{session_mode, handled, see}
use test_code.MultiThread.Reader.Read.{read_all-handled}
use test_code.Tests.Buffers.{list_buffers, list_queue, list_cf}
use test_code.Prelude.Map.{lookup, insert}
use test_code.Wire.{fill, load_u32, ntohl, store_u32, htonl}
use test_code.MultiThread.Reader.{new_session, readcb, read_round, read_header, read_body}
use test_code.MultiThread.Server.{
  State, Result, went, disabled, failed, Action, accepting, arriving, notified, deliver, getting,
  putting, writing, start, answer, insert_new, acceptcb, deliver_to, arrive, dispatch, deliver_one,
  get, put, write, act, run,
}
use test_code.MultiThread.Server.Wake.{Woken, run-Woken}
use test_code.Tests.Buffers.{list_fifo}
use mathlib.Core.Option

abbrev in_body : Session list_buffers
in_body = record {
  recving_header = 0;
  body_size = 2;
  bev = record { input = 7 ∷ 8 ∷ 0 ∷ 0 ∷ 0 ∷ 1 ∷ 9 ∷ 0 ∷ []; output = [] };
}

read_all-handled_example :
    (r : Reading list_buffers list_cf) × (read_all list_buffers list_cf little_endian 2 5 in_body
        ([] ∷ [] ∷ [])
      ≡ some r)
    × (see list_queue r
        ≡ handled list_cf 2 5 2
            ([] ∷ [] ∷ [])
            (decode size_limit (session_mode in_body) (7 ∷ 8 ∷ 0 ∷ 0 ∷ 0 ∷ 1 ∷ 9 ∷ 0 ∷ [])))
    × (r.session.body_size ≤ size_limit)
read_all-handled_example =
    read_all-handled list_queue little_endian 2 5 in_body ([] ∷ [] ∷ []) (omega arith) (omega arith)

-- A message of one byte, taken by worker 1 and sent back; the last step has put it into the output
-- of descriptor 5, and the answer to the second message waits in the queue.
abbrev traffic : List Action
traffic =
    accepting (some 5)
    ∷ arriving 5 (0 ∷ 0 ∷ 0 ∷ 1 ∷ 9 ∷ 0 ∷ [])
    ∷ getting 1
    ∷ putting 1
    ∷ writing 1
    ∷ arriving 5 (0 ∷ 0 ∷ 1 ∷ 7 ∷ [])
    ∷ notified 1
    ∷ getting 1
    ∷ deliver
    ∷ putting 1
    ∷ []

abbrev state_after : Result list_buffers list_cf → State list_buffers list_cf
state_after (went s) = s
state_after disabled = start 2
state_after failed = start 2

traffic_outputs :
    Option.map
      (λ (si : Session list_buffers). si.bev.output)
      (lookup 5 (state_after (run big_endian 2 (start 2) traffic)).sessions)
    ≡ some (0 ∷ 0 ∷ 0 ∷ 1 ∷ 9 ∷ [])
unfolding run act dispatch arrive acceptcb insert_new deliver_one deliver_to get put write start
    answer readcb read_all new_session read_round read_header read_body lookup insert fill load_u32
    ntohl store_u32 htonl
traffic_outputs = refl

run-Woken_example : Woken list_fifo (state_after (run big_endian 2 (start 2) traffic))
unfolding run act dispatch arrive acceptcb insert_new deliver_one deliver_to get put write start
    answer readcb read_all new_session read_round read_header read_body lookup insert fill load_u32
    ntohl store_u32 htonl
run-Woken_example =
    run-Woken list_fifo big_endian 2 traffic (state_after (run big_endian 2 (start 2) traffic)) refl

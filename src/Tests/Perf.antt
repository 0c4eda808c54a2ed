-- ===== src/Tests/Perf.antt =====
-- dev_examples/perf_libevent/server.cpp on concrete streams.
use test_code.Prelude.{ℕ, ◌≡◌, refl, Option, none, some, List, [], ◌∷◌, arith}
use test_code.Wire.{
  Bytes, little_endian, big_endian, to_be32, fill, load_u32, ntohl, store_u32, htonl,
}
use test_code.Framing.{header, body, decode, encode, encode_all}
use test_code.PerfLibevent.{
  Called, Server, Event, accepting, arriving, Process, alive, dead, step, run, readcb, do_accept,
  exited, arrive, read_round, read_header, read_body, reply,
}
use test_code.PerfLibevent.Round.{see}
use test_code.Framing.Decode.{decode-header_short}
use test_code.Prelude.Map.{at, lookup, insert, touch}
use mathlib.Core.Option
use test_code.PerfLibevent.Mode.{mode_of}
use test_code.Framing.Echo.{open_at, echoed}
use test_code.PerfLibevent.Run.{AllSmall, Keeps}
use test_code.PerfLibevent.Read.{readcb-echoed}
use test_code.PerfLibevent.Echo.{client_isolated, sent_back, empty_message_waits, oversized_ends}
use test_code.PerfLibevent.Total.{step-Fine, Fine}
use test_code.Libevent.{Channel}
use test_code.Tests.Buffers.{list_buffers, list_queue}

abbrev fresh : Server list_buffers
fresh = record { globals = record { recv_header = []; session_info = [] }; channels = [] }

abbrev output_of : ℕ → Process list_buffers → Option Bytes
output_of fd (alive s) = Option.map (λ (c : Channel list_buffers). c.output) (lookup fd s.channels)
output_of fd dead = none

abbrev messages : List Bytes
messages = (7 ∷ 8 ∷ []) ∷ (9 ∷ []) ∷ []

-- The two messages in three pieces, among the events of another client.
abbrev chopped : List Event
chopped =
    arriving 5 (0 ∷ 0 ∷ [])
    ∷ accepting (some 6)
    ∷ arriving 5 (0 ∷ 2 ∷ 7 ∷ 8 ∷ 0 ∷ [])
    ∷ arriving 6 (0 ∷ [])
    ∷ arriving 5 (0 ∷ 0 ∷ 1 ∷ 9 ∷ [])
    ∷ []

fresh-AllSmall : AllSmall fresh
unfolding at lookup
fresh-AllSmall j = omega arith

-- The run itself: the process lives on, and the output of descriptor 5 holds both echoes.
chopped_result :
    Option.map (output_of 5) (run little_endian fresh (accepting (some 5) ∷ chopped))
    ≡ some (some (0 ∷ 0 ∷ 0 ∷ 2 ∷ 7 ∷ 8 ∷ 0 ∷ 0 ∷ 0 ∷ 1 ∷ 9 ∷ []))
unfolding run step do_accept arrive readcb read_round read_header read_body reply at touch lookup
    insert fill load_u32 ntohl store_u32 htonl
chopped_result = refl

-- 70000 bytes are announced.
exits :
    readcb list_buffers big_endian 5
      (record { recv_header = (5, 1) ∷ []; session_info = [] })
      (record { input = 0 ∷ 1 ∷ 17 ∷ 112 ∷ []; output = [] })
    ≡ some exited
unfolding readcb read_round read_header touch at insert lookup fill load_u32 ntohl
exits = refl

readcb-echoed_example :
    (r : Called list_buffers) × (readcb list_buffers little_endian 5
        (record { recv_header = (5, 0) ∷ []; session_info = (5, 2) ∷ [] })
        (record { input = 7 ∷ 8 ∷ 0 ∷ []; output = [] })
      ≡ some r)
    × (see list_queue 5 r ≡ echoed [] (decode 1000 (body 2) (7 ∷ 8 ∷ 0 ∷ [])))
unfolding mode_of at lookup
readcb-echoed_example =
    readcb-echoed list_queue little_endian 5
      (record { recv_header = (5, 0) ∷ []; session_info = (5, 2) ∷ [] })
      (record { input = 7 ∷ 8 ∷ 0 ∷ []; output = [] }) (omega arith)

client_isolated_example :
    Keeps list_queue 5
      (echoed [] (decode 1000 header (0 ∷ 0 ∷ 0 ∷ 2 ∷ 7 ∷ 8 ∷ 0 ∷ 0 ∷ 0 ∷ 1 ∷ 9 ∷ [])))
      (run little_endian (do_accept (some 5) fresh) chopped)
unfolding do_accept at lookup insert mode_of
client_isolated_example =
    client_isolated list_queue little_endian 5 chopped (do_accept (some 5) fresh) fresh-AllSmall
      (omega arith) header [] [] (decode-header_short 1000 [] (omega arith)) refl

sent_back_example :
    Keeps list_queue 5
      (open_at header [] (encode_all messages))
      (run little_endian fresh (accepting (some 5) ∷ chopped))
unfolding encode_all encode to_be32
sent_back_example =
    sent_back list_queue little_endian 5 chopped fresh messages fresh-AllSmall (omega arith)
      (omega arith) (omega arith) refl

empty_message_waits_example :
    Keeps list_queue 5
      (open_at (body 0) [] (encode_all []))
      (run big_endian fresh (accepting (some 5) ∷ arriving 5 (0 ∷ 0 ∷ 0 ∷ 0 ∷ []) ∷ []))
unfolding encode_all encode to_be32
empty_message_waits_example =
    empty_message_waits list_queue big_endian 5 (arriving 5 (0 ∷ 0 ∷ 0 ∷ 0 ∷ []) ∷ []) fresh []
      fresh-AllSmall (omega arith) (omega arith) tt refl

oversized_ends_example :
    run big_endian fresh
      (accepting (some 5) ∷ accepting (some 6) ∷ arriving 5 (0 ∷ 1 ∷ 17 ∷ 112 ∷ []) ∷ [])
    ≡ some dead
unfolding encode_all encode to_be32
oversized_ends_example =
    oversized_ends list_queue big_endian 5
      (accepting (some 6) ∷ arriving 5 (0 ∷ 1 ∷ 17 ∷ 112 ∷ []) ∷ []) fresh [] 70000 []
      fresh-AllSmall (omega arith) (omega arith) tt (omega arith) (omega arith) refl

step-Fine_example :
    Fine list_queue fresh (accepting (some 2000)) (step big_endian fresh (accepting (some 2000)))
step-Fine_example = step-Fine list_queue big_endian fresh (accepting (some 2000)) fresh-AllSmall

-- ===== src/Tests/Children.antt =====
-- dev_examples/perf_libevent_multi_processes/server.cpp on concrete events.
use test_code.Prelude.{ℕ, ◌≡◌, ◌≤◌, arith, true, get_elem?, refl, none, some, List, [], ◌∷◌, false}
use test_code.Prelude.Map.{insert, lookup, at, touch}
use test_code.Wire.{big_endian, ntohl, load_u32, fill}
use test_code.Framing.{header, decode}
use test_code.Framing.Echo.{echoed}
use test_code.PerfLibevent
use test_code.PerfLibevent.{Event, accepting, arriving, max_size}
use test_code.MultiProcess
use test_code.MultiProcess.{
  Child, running, fresh, forked, do_accept, run, child_step, step_at, Fork, failed, child, fork_all,
  server_main,
}
use test_code.MultiProcess.Accepts.{taken_in, server_main-le}
use test_code.MultiProcess.Alone.{events_of}
use test_code.MultiProcess.Echo.{Serves, child-echoed}
use test_code.Startup.{Calls}
use test_code.Tests.Buffers.{list_buffers, list_queue}

-- Child 1 takes descriptor 7, child 0 one that is too large, and then descriptor 7.
abbrev accepts : List (ℕ × Event)
accepts = (1, accepting (some 7)) ∷ (0, accepting (some 1025)) ∷ (0, accepting (some 7)) ∷ []

abbrev children : List (Child list_buffers)
children =
    running false (PerfLibevent.do_accept (some 7) fresh)
    ∷ running false (PerfLibevent.do_accept (some 7) fresh)
    ∷ []

-- A child that has taken a connection takes no other.
no_child_left :
    run {ev = list_buffers} big_endian (forked 2) ((1, accepting (some 8)) ∷ accepts) ≡ none
unfolding run step_at child_step do_accept PerfLibevent.do_accept insert
no_child_left = refl

abbrev fine : Calls
fine = record { sigaction = true; base = true; bind = true; listen = true }

server_main-le_example : taken_in accepts ≤ 5
unfolding server_main fork_all run step_at child_step do_accept PerfLibevent.do_accept insert
server_main-le_example =
    server_main-le big_endian 2 fine (failed ∷ child ∷ failed ∷ child ∷ []) accepts children refl

-- Child 0 refuses a connection and takes another one, of which it gets a message of one byte and two
-- bytes of a header, while child 1 takes one, too.
abbrev mixed : List (ℕ × Event)
mixed =
    (0, accepting (some 1025))
    ∷ (1, accepting (some 7))
    ∷ (0, accepting (some 7))
    ∷ (0, arriving 7 (0 ∷ 0 ∷ 0 ∷ []))
    ∷ (1, arriving 7 (0 ∷ []))
    ∷ (0, arriving 7 (1 ∷ 65 ∷ 0 ∷ 0 ∷ []))
    ∷ []

-- The children after these events.
abbrev after_mixed : List (Child list_buffers)
after_mixed = elim (run big_endian (forked 2) mixed) [ none ↦ [] | some cs ↦ cs ]

child-echoed_example :
    (c : Child list_buffers) × (get_elem? after_mixed 0 ≡ some c)
    × Serves list_queue big_endian 7
        (echoed [] (decode max_size header (0 ∷ 0 ∷ 0 ∷ 1 ∷ 65 ∷ 0 ∷ 0 ∷ [])))
        c
unfolding run step_at child_step do_accept insert lookup MultiProcess.readcb PerfLibevent.readcb
    PerfLibevent.read_round at touch PerfLibevent.read_header ntohl load_u32 fill
    PerfLibevent.read_body events_of
child-echoed_example =
    child-echoed list_queue big_endian 7 2 0 mixed after_mixed (accepting (some 1025) ∷ [])
      (arriving 7 (0 ∷ 0 ∷ 0 ∷ []) ∷ arriving 7 (1 ∷ 65 ∷ 0 ∷ 0 ∷ []) ∷ [])
      (0 ∷ 0 ∷ 0 ∷ 1 ∷ 65 ∷ 0 ∷ 0 ∷ []) (omega arith) refl refl (omega arith, tt) (omega arith)
      (refl, (refl, tt)) refl

-- ===== src/MultiProcess.antt =====
-- dev_examples/perf_libevent_multi_processes/server.cpp: children that listen to one socket. `readcb`
-- and `errorcb` are, word for word, those of dev_examples/perf_libevent/server.cpp.
pub mod Accepts
pub mod Callbacks
pub mod Alone
pub mod Echo
use test_code.Prelude.{
  ℕ, zero, suc, ◌+◌, Bool, true, false, Option, none, some, List, [], ◌∷◌, ltb, if◌then◌else◌,
  replicate,
}
use test_code.Prelude.Map.{lookup, insert}
use test_code.Wire.{ByteOrder}
use test_code.Libevent.{Libevent, Channel}
use test_code.Startup.{Calls, Main, returned, listening}
use test_code.PerfLibevent
use test_code.PerfLibevent.{
  Server, Event, accepting, arriving, failing, Process, alive, dead, fd_setsize, step, Globals,
  Called, exited, ErrorFlags,
}

-- A child of `main` that runs, with whether its event loop watches the listener, or one that has ended.
pub data Child (ev : Libevent) : Type 0 where
  running : Bool → Server ev → Child ev
  ended : Child ev

abbrev pub process_cnt : ℕ
process_cnt = 5

abbrev pub fresh : {ev : Libevent} → Server ev
fresh = record { globals = record { recv_header = []; session_info = [] }; channels = [] }

-- The callbacks of a child.
unfoldable pub readcb : (ev : Libevent) → ByteOrder → ℕ → Globals → Channel ev → Option (Called ev)
readcb ev o fd g c = PerfLibevent.readcb ev o fd g c

unfoldable pub errorcb : ErrorFlags → ℕ → ℕ → Globals → Globals
errorcb flags err fd g = PerfLibevent.errorcb flags err fd g

-- The children for which `fork` succeeds.
abbrev pub forked : {ev : Libevent} → ℕ → List (Child ev)
forked n = replicate n (running true fresh)

-- Of a child whose loop watches the listener. A connection that is taken is the last one:
-- `event_del(listener_event)`.
unfoldable pub do_accept : {ev : Libevent} → Option ℕ → Server ev → Child ev
do_accept none s = running true s
do_accept {ev} (some fd) s =
    if ltb fd_setsize fd
    then running true s
    else running false (record {
      globals = record s.globals { recv_header = insert fd 1 s.globals.recv_header };
      channels = insert fd (record { input = ev.empty; output = ev.empty }) s.channels;
    })

module _ {ev : Libevent} (o : ByteOrder) where
  abbrev pub after_read : Bool → ℕ → Server ev → Option (Called ev) → Option (Child ev)
  after_read listening fd s none = none
  after_read listening fd s (some exited) = some ended
  after_read listening fd s (some (PerfLibevent.returned g c)) =
      some (running listening (record { globals = g; channels = insert fd c s.channels }))

  -- An event of a child; `none` where it has no such event.
  unfoldable pub child_step : Event → Child ev → Option (Child ev)
  child_step e ended = none
  child_step (accepting fd) (running true s) = some (do_accept fd s)
  child_step (accepting fd) (running false s) = none
  child_step (arriving fd d) (running listening s) = elim (lookup fd s.channels) [
    | none ↦ some (running listening s)
    | some c ↦
        after_read listening fd s (readcb ev o fd s.globals (record c { input = ev.add c.input d }))
  ]
  child_step (failing fd flags err) (running listening s) =
      some (running listening (record s { globals = errorcb flags err fd s.globals }))

  unfoldable pub step_at : ℕ → Event → List (Child ev) → Option (List (Child ev))
  step_at i e [] = none
  step_at zero e (c ∷ cs) = elim (child_step e c) [ none ↦ none | some c' ↦ some (c' ∷ cs) ]
  step_at (suc i) e (c ∷ cs) = elim (step_at i e cs) [ none ↦ none | some cs' ↦ some (c ∷ cs') ]

  -- Any interleaving of the children: which of them, and its event.
  unfoldable pub run : List (Child ev) → List (ℕ × Event) → Option (List (Child ev))
  run cs [] = some cs
  run cs ((i, e) ∷ more) = elim (step_at i e cs) [ none ↦ none | some cs' ↦ run cs' more ]

-- What becomes of one call of `fork`: it fails, the child cannot make its event base, or it runs.
pub data Fork : Type 0 where
  failed no_base child : Fork

-- The first so many rounds of the loop over `fork`: the children that there are then.
unfoldable pub fork_all : {ev : Libevent} → ℕ → List Fork → List (Child ev)
fork_all zero fs = []
fork_all (suc n) [] = []
fork_all (suc n) (failed ∷ fs) = fork_all n fs
fork_all (suc n) (no_base ∷ fs) = ended ∷ fork_all n fs
fork_all (suc n) (child ∷ fs) = running true fresh ∷ fork_all n fs

-- `main`, with an interleaving of the children; the parent waits for them.
unfoldable pub server_main :
    {ev : Libevent}
    → ByteOrder
    → ℕ
    → Calls
    → List Fork
    → List (ℕ × Event)
    → Main (Option (List (Child ev)))
server_main o argc calls forks more =
    if ltb argc 2
    then returned 0
    else if calls.sigaction
    then listening calls (run o (fork_all process_cnt forks) more)
    else returned 1

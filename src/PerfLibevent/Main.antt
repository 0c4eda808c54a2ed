-- ===== src/PerfLibevent/Main.antt =====
-- `main` of dev_examples/perf_libevent/server.cpp.
use test_code.Prelude.{ℕ, Option, List, [], ltb, if◌then◌else◌}
use test_code.Wire.{ByteOrder}
use test_code.Libevent.{Libevent}
use test_code.Startup.{Calls, Main, returned, listening}
use test_code.PerfLibevent.{Server, Event, Process, run}

abbrev pub fresh : {ev : Libevent} → Server ev
fresh = record { globals = record { recv_header = []; session_info = [] }; channels = [] }

unfoldable pub server_main :
    {ev : Libevent} → ByteOrder → ℕ → Calls → List Event → Main (Option (Process ev))
server_main o argc calls es =
    if ltb argc 2
    then returned 0
    else if calls.sigaction
    then if calls.base then listening calls (run o fresh es) else returned 0
    else returned 1

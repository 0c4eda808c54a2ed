-- ===== src/MultiThread/Main.antt =====
-- `main` of dev_examples/libevent_multithreads/server.cpp.
use test_code.Prelude.{ℕ, List, ltb, if◌then◌else◌}
use test_code.Wire.{ByteOrder}
use test_code.Libevent.{Libevent}
use test_code.CfQueue.{CfQueue}
use test_code.Startup.{Calls, Main, returned, listening}
use test_code.MultiThread.Server.{Result, Action, start, run}

abbrev pub threads_cnt : ℕ
threads_cnt = 2

-- The threads and the loop, over what they do; every call of pthread_create succeeds.
unfoldable pub server_main :
    {ev : Libevent} {cf : CfQueue} → ByteOrder → ℕ → Calls → List Action → Main (Result ev cf)
server_main o argc calls more =
    if ltb argc 2
    then returned 0
    else if calls.sigaction
    then if calls.base
      then listening calls (run o threads_cnt (start threads_cnt) more)
      else returned 0
    else returned 1

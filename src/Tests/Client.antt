-- ===== src/Tests/Client.antt =====
-- lite_test/TCP_USER_TIMEOUT_test/tcptest_client.cpp on concrete events.
use test_code.Prelude.{◌≡◌, less_1, false, refl, none, some, [], ◌∷◌, arith}
use test_code.Wire.{Bytes}
use test_code.TcpClient.{
  got, closed, failed, send_message, recv_message, timeout, ready, handle_ready, handle_all, went,
  finished, handle_wait, serve, connected,
}
use test_code.TcpClient.Count.{CountedAfter, serve-Counted}
use test_code.TcpClient.Stuck.{StuckAt, serve-stuck}

abbrev hello : Bytes
hello = b'h' ∷ b'i' ∷ []

-- An answer, and then the server closes while the client waits for events.
ended :
    serve hello connected (timeout (some 2) (got b'h' (b'i' ∷ [])) ∷ ready ((closed, 0) ∷ []) ∷ [])
    ≡ finished (record { maxevents = 0; is_open = false; sent = hello; printed = hello })
unfolding serve handle_wait handle_all handle_ready recv_message send_message less_1
ended = refl

-- The server closes while the client waits for its answer.
hangs :
    serve hello connected (timeout (some 2) closed ∷ timeout none failed ∷ [])
    ≡ went (record { maxevents = 1; is_open = false; sent = hello; printed = [] })
unfolding serve handle_wait handle_all handle_ready recv_message send_message less_1
hangs = refl

serve-Counted_example : CountedAfter (
    serve hello connected (timeout (some 2) (got b'h' (b'i' ∷ [])) ∷ ready ((closed, 0) ∷ []) ∷ []))
serve-Counted_example =
    serve-Counted hello (timeout (some 2) (got b'h' (b'i' ∷ [])) ∷ ready ((closed, 0) ∷ []) ∷ [])

serve-stuck_example :
    StuckAt
      ((recv_message closed (send_message hello (some 2) connected)).0)
      (serve hello connected (timeout (some 2) closed ∷ timeout none failed ∷ []))
serve-stuck_example =
    serve-stuck hello (some 2) closed connected (timeout none failed ∷ []) tt refl (omega arith)

-- ===== src/TcpClient/Stuck.antt =====
-- When lite_test/TCP_USER_TIMEOUT_test/tcptest_client.cpp does not end.
use test_code.Prelude.{ℕ, ◌<◌, ◌≡◌, refl, ◌∙◌, arith, true, false, Option, List, [], ◌∷◌, lt→ltb}
use test_code.Wire.{Bytes}
use test_code.TcpClient.{
  Client, Recv, send_message, recv_message, Wait, error, timeout, ready, Result, went, finished,
  left_main, disabled, handle_wait, serve,
}
use test_code.TcpClient.Steps.{stays_closed, Closing, closes, Alike, send_message-Alike}

-- Of a connection that has been closed: the loop waits on and does nothing more, unless an error of
-- epoll_wait makes main return.
abbrev pub StuckAt : Client → Result → Type 0
StuckAt c (went c') = c' ≡ c
StuckAt c (finished c') = ⊥
StuckAt c left_main = Unit
StuckAt c disabled = Unit

serve-closed :
    (buf : Bytes) (c : Client) (ws : List Wait)
    → c.is_open ≡ false
    → 0 < c.maxevents
    → StuckAt c (serve buf c ws)
unfolding serve handle_wait
serve-closed buf c [] h k = rw (lt→ltb 0 c.maxevents k) refl
serve-closed buf c (error ∷ ws) h k = rw (lt→ltb 0 c.maxevents k) tt
serve-closed buf c (timeout written r ∷ ws) h k =
    rw (lt→ltb 0 c.maxevents k, stays_closed buf written r c h) (serve-closed buf c ws h k)
serve-closed buf c (ready es ∷ ws) h k = rw (lt→ltb 0 c.maxevents k, h) tt

-- If the end of the connection, or an error of it, is met by the `recv` after a timeout, then the loop
-- never ends: whatever comes afterwards, nothing is sent or printed any more and the count of events
-- stays as it is, unless main returns because epoll_wait fails.
pub serve-stuck :
    (buf : Bytes) (written : Option ℕ) (r : Recv) (c : Client) (ws : List Wait)
    → Closing r
    → c.is_open ≡ true
    → 0 < c.maxevents
    → StuckAt
        ((recv_message r (send_message buf written c)).0)
        (serve buf c (timeout written r ∷ ws))
unfolding serve handle_wait Alike
serve-stuck buf written r c ws h e k =
    let s = send_message buf written c in
    let same = send_message-Alike buf written c in
    let (gone, count) = closes r s h (same.0 ∙ e) in
    rw (lt→ltb 0 c.maxevents k)
      (serve-closed buf ((recv_message r s).0) ws gone (omega (arith, count, same.1)))

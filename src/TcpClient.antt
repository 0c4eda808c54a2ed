-- ===== src/TcpClient.antt =====
-- lite_test/TCP_USER_TIMEOUT_test/tcptest_client.cpp: a client that sends a text on each timeout of
-- epoll and prints what comes back. What the system calls return is in the arguments.
pub mod Steps
pub mod Count
pub mod Stuck
use test_code.Prelude.{
  ℕ, ◌+◌, ◌-◌, ℤ, pos, negsuc, less_1, Bool, true, false, Option, none, some, List, [], ◌∷◌, ◌++◌,
  ltb, leb, ◌==◌, if◌then◌else◌, length, take,
}
use test_code.Wire.{Bytes}
use test_code.TcpEcho.{eagain}

-- The connection, with the bytes that have been sent and printed, and the count of events.
pub record Client : Type 0 where
  pub maxevents : ℕ
  pub is_open : Bool
  pub sent : Bytes
  pub printed : Bytes

-- What `recv` gives: at least one byte, 0 or -1.
pub data Recv : Type 0 where
  got : ℕ → Bytes → Recv
  closed : Recv
  failed : Recv

-- What `send` returns, of which `none` is -1; on a descriptor that is closed it fails.
unfoldable pub send_message : Bytes → Option ℕ → Client → Client
send_message buf none c = c
send_message buf (some n) c = if c.is_open then record c { sent = c.sent ++ take n buf } else c

abbrev on_open : Recv → Client → Client × ℤ
on_open (got b d) c = (record c { printed = c.printed ++ b ∷ d }, pos (length (b ∷ d)))
on_open closed c = (record c { is_open = false }, pos 0)
on_open failed c = (record c { is_open = false }, negsuc 0)

-- `recv_message`, with what it returns; on a descriptor that is closed, `recv` fails.
unfoldable pub recv_message : Recv → Client → Client × ℤ
recv_message r c = if c.is_open then on_open r c else on_open failed c

-- What epoll_wait reports: an error; no event within the time, with what send and recv then give; or
-- events, each with what recv gives, and errno after it, which a call that succeeds leaves as it was.
pub data Wait : Type 0 where
  error : Wait
  timeout : Option ℕ → Recv → Wait
  ready : List (Recv × ℕ) → Wait

-- The body of the `for` over the events.
unfoldable pub handle_ready : Recv → ℕ → Client → Client
handle_ready r errno c =
    let (after, rt) = recv_message r c in
    if less_1 rt
    then if errno == eagain then after else record after { maxevents = after.maxevents - 1 }
    else after

unfoldable pub handle_all : List (Recv × ℕ) → Client → Client
handle_all [] c = c
handle_all ((r, errno) ∷ more) c = handle_all more (handle_ready r errno c)

-- The loop goes on; the loop has ended; main has returned out of it; or epoll does not report this:
-- more events than it was asked for, none, or one of a descriptor that is closed.
pub data Result : Type 0 where
  went : Client → Result
  finished : Client → Result
  left_main : Result
  disabled : Result

unfoldable pub handle_wait : Bytes → Wait → Client → Result
handle_wait buf error c = left_main
handle_wait buf (timeout written r) c = went ((recv_message r (send_message buf written c)).0)
handle_wait buf (ready es) c =
    if c.is_open
    then if ltb 0 (length es)
      then if leb (length es) c.maxevents then went (handle_all es c) else disabled
      else disabled
    else disabled

-- `while (maxevents>0)`, over what epoll_wait reports.
unfoldable pub serve : Bytes → Client → List Wait → Result
serve buf c [] = if ltb 0 c.maxevents then went c else finished c
serve buf c (w ∷ more) =
    if ltb 0 c.maxevents
    then elim (handle_wait buf w c) [ went c' ↦ serve buf c' more | r ↦ r ]
    else finished c

abbrev pub connected : Client
connected = record { maxevents = 1; is_open = true; sent = []; printed = [] }

-- The arguments of main: how many there are, what atoi makes of the port and the timeout, and the
-- text.
pub record Args : Type 0 where
  pub argc : ℕ
  pub port : ℤ
  pub timeoutmsec : ℤ
  pub buf : Bytes

-- Whether socket, connect and epoll_ctl succeed.
pub record Calls : Type 0 where
  pub socket : Bool
  pub connect : Bool
  pub epoll_ctl : Bool

-- What main returns before the loop, or the loop.
pub data Main : Type 0 where
  returned : ℤ → Main
  looped : Result → Main

unfoldable pub client_main : Args → Calls → List Wait → Main
client_main a calls ws =
    if ltb a.argc 5
    then returned (negsuc 0)
    else if less_1 a.port
    then returned (pos 1)
    else if less_1 a.timeoutmsec
    then returned (pos 1)
    else if ltb (length a.buf) 1
    then returned (pos 1)
    else if calls.socket
    then if calls.connect
      then if calls.epoll_ctl then looped (serve a.buf connected ws) else returned (pos 0)
      else returned (pos 0)
    else returned (pos 0)

-- ===== src/PerfLibevent/Mode.antt =====
-- What the state of dev_examples/perf_libevent/server.cpp says of one connection, and what a client
-- sees of it.
use test_code.Prelude.{ℕ, ◌≤◌, ◌≡◌, List, arith, ◌==◌, if◌then◌else◌}
use test_code.Prelude.Map.{insert, at, touch, at-insert, at-touch}
use test_code.Framing.{Mode, header, body}
use test_code.PerfLibevent.{Globals, max_size}

-- What the globals say of a descriptor.
unfoldable pub mode_of : Globals → ℕ → Mode
mode_of g fd = if at 0 fd g.recv_header == 0 then body (at 0 fd g.session_info) else header

-- A size in the globals has passed the test of `readcb`.
abbrev pub IsSmall : Mode → Type 0
IsSmall header = Unit
IsSmall (body n) = n ≤ max_size

pub mode_of-size :
    (g : Globals) (fd n : ℕ)
    → mode_of
        (record {
          recv_header = insert fd 0 g.recv_header;
          session_info = insert fd n g.session_info;
        })
        fd
      ≡ body n
unfolding mode_of
mode_of-size g fd n =
    ground (arith, at-insert 0 fd fd 0 g.recv_header, at-insert 0 fd fd n g.session_info)

pub mode_of-done :
    (g : Globals) (fd : ℕ) (m : List (ℕ × ℕ))
    → mode_of (record { recv_header = insert fd 1 g.recv_header; session_info = m }) fd ≡ header
unfolding mode_of
mode_of-done g fd m = ground (arith, at-insert 0 fd fd 1 g.recv_header)

pub mode_of-touch_header :
    (g : Globals) (fd j : ℕ)
    → mode_of (record g { recv_header = touch 0 fd g.recv_header }) j ≡ mode_of g j
unfolding mode_of
mode_of-touch_header g fd j = ground (arith, at-touch 0 fd j g.recv_header)

pub mode_of-touch_size :
    (g : Globals) (fd j : ℕ)
    → mode_of (record g { session_info = touch 0 fd g.session_info }) j ≡ mode_of g j
unfolding mode_of
mode_of-touch_size g fd j = ground (arith, at-touch 0 fd j g.session_info)

pub body-fields :
    (g : Globals) (fd n : ℕ)
    → mode_of g fd ≡ body n
    → (at 0 fd g.recv_header ≡ 0) × (at 0 fd g.session_info ≡ n)
unfolding mode_of
body-fields g fd n e = ground arith

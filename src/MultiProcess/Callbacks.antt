-- ===== src/MultiProcess/Callbacks.antt =====
-- The callbacks of dev_examples/perf_libevent_multi_processes/server.cpp beside those of
-- dev_examples/perf_libevent/server.cpp.
use test_code.Prelude.{
  ℕ, ◌≡◌, refl, Bool, false, Option, none, some, Option-cases, inl, inr, le→ltb, ◌≤◌,
}
use test_code.Prelude.Map.{lookup}
use test_code.Wire.{Bytes, ByteOrder}
use test_code.Libevent.{Libevent}
use test_code.PerfLibevent
use test_code.PerfLibevent.{
  Server, arriving, accepting, Process, alive, dead, arrive, Called, exited, fd_setsize,
}
use test_code.MultiProcess.{Child, running, ended, do_accept, after_read, child_step, readcb}

-- A process, as a child that goes on listening or not.
abbrev pub as_child : {ev : Libevent} → Bool → Option (Process ev) → Option (Child ev)
as_child listening none = none
as_child listening (some dead) = some ended
as_child listening (some (alive s)) = some (running listening s)

module _ {ev : Libevent} (o : ByteOrder) where
  after_read-as_child :
      (listening : Bool) (fd : ℕ) (s : Server ev) (r : Option (Called ev))
      → after_read o listening fd s r ≡ as_child listening (PerfLibevent.after_read o fd s r)
  after_read-as_child listening fd s none = refl
  after_read-as_child listening fd s (some exited) = refl
  after_read-as_child listening fd s (some (PerfLibevent.returned g c)) = refl

  -- Bytes are read as they are there.
  pub child_step-arrive :
      (listening : Bool) (fd : ℕ) (d : Bytes) (s : Server ev)
      → child_step o (arriving fd d) (running listening s) ≡ as_child listening (arrive o fd d s)
  unfolding child_step arrive readcb
  child_step-arrive listening fd d s = elim (Option-cases (lookup fd s.channels)) [
    | inl missing ↦ rw (child_step, arrive, missing) refl
    | inr (c, found) ↦
        rw (child_step, arrive, found, readcb)
          (after_read-as_child listening fd s
            (PerfLibevent.readcb ev o fd s.globals (record c { input = ev.add c.input d })))
  ]

-- A connection that is taken is registered as it is there.
pub do_accept-taken :
    {ev : Libevent} (fd : ℕ) (s : Server ev)
    → fd ≤ fd_setsize
    → do_accept (some fd) s ≡ running false (PerfLibevent.do_accept (some fd) s)
unfolding do_accept PerfLibevent.do_accept
do_accept-taken fd s h = rw (do_accept, PerfLibevent.do_accept, le→ltb fd_setsize fd h) refl

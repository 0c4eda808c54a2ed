-- ===== src/PerfLibevent/Frame.antt =====
-- What `readcb` of dev_examples/perf_libevent/server.cpp leaves alone.
use test_code.Prelude.{
  ℕ, suc, ◌*◌, ◌≤◌, ◌≡◌, refl, ◌≢◌, Option, none, some, arith, After, repeat_keeps,
}
use test_code.Prelude.Map.{lookup, lookup-insert, at-erase, at, touch, at-insert, at-touch}
use test_code.Wire.{ByteOrder, ntohl, load_u32, fill}
use test_code.Libevent.{Libevent, Channel}
use test_code.PerfLibevent.{
  Globals, Called, returned, exited, Reading, max_size, read_header, read_body, read_round, readcb,
  reading, ErrorFlags, errorcb, Server, do_accept,
}
use test_code.PerfLibevent.Mode.{mode_of, IsSmall}

-- The session of `j` is what it was.
abbrev pub SameAt : ℕ → Globals → Globals → Type 0
SameAt j g g' =
    (at 0 j g'.recv_header ≡ at 0 j g.recv_header)
    × (at 0 j g'.session_info ≡ at 0 j g.session_info)

abbrev pub SameAfter : {ev : Libevent} → ℕ → Globals → Called ev → Type 0
SameAfter j g (returned g' c) = SameAt j g g'
SameAfter j g exited = Unit

module _ (ev : Libevent) (o : ByteOrder) (fd j : ℕ) (other : fd ≢ j) (g : Globals) where
  SameAt-header :
      (s : Reading ev)
      → SameAt j g s.globals
      → After (λ _ s'. SameAt j g s'.globals) (SameAfter j g) 0 (read_header ev o fd s)
  unfolding read_header
  SameAt-header s h =
      let (raw, input) = ev.remove s.channel.input 4 in
      ground (
        arith,
        at-insert 0 fd j 0 s.globals.recv_header,
        at-insert 0 fd j (ntohl o (load_u32 o (fill 4 raw))) s.globals.session_info,
      )

  SameAt-body :
      (n : ℕ) (s : Reading ev)
      → SameAt j g s.globals
      → After (λ _ s'. SameAt j g s'.globals) (SameAfter j g) 0 (read_body ev o fd n s)
  unfolding read_body
  SameAt-body n s h = ground (arith, at-insert 0 fd j 1 s.globals.recv_header)

  SameAt-round :
      (s : Reading ev)
      → SameAt j g s.globals
      → After (λ _ s'. SameAt j g s'.globals) (SameAfter j g) 0 (read_round ev o fd s)
  unfolding read_round
  SameAt-round s h = ground (
    arith,
    SameAt-header s h,
    SameAt-body (at 0 fd s.globals.session_info) (record s {
      globals = record s.globals { session_info = touch 0 fd s.globals.session_info };
    }),
    at-touch 0 fd j s.globals.session_info,
  )

  -- If `readcb` for one descriptor returns, the entries of any other descriptor in the two maps read
  -- as they did before.
  pub readcb-SameAt :
      (c : Channel ev) (r : Called ev) → readcb ev o fd g c ≡ some r → SameAfter j g r
  unfolding readcb
  readcb-SameAt c r e =
      repeat_keeps (λ s. SameAt j g s.globals) (SameAfter j g) (read_round ev o fd) SameAt-round
        (suc (suc (2 * ev.get_length c.input))) (reading ev o fd g c) r
        (at-touch 0 fd j g.recv_header, refl) e

-- Every size that the globals hold has passed the test of `readcb`.
abbrev pub SmallAt : ℕ → Globals → Type 0
SmallAt j g = at 0 j g.session_info ≤ max_size

abbrev pub SmallAfter : {ev : Libevent} → ℕ → Called ev → Type 0
SmallAfter j (returned g c) = SmallAt j g
SmallAfter j exited = Unit

pub SmallAt-IsSmall : (j : ℕ) (g : Globals) → SmallAt j g → IsSmall (mode_of g j)
unfolding mode_of
SmallAt-IsSmall j g h = ground arith

pub mode_of-SameAt : (j : ℕ) (g g' : Globals) → SameAt j g g' → mode_of g' j ≡ mode_of g j
unfolding mode_of
mode_of-SameAt j g g' h = ground arith

module _ (ev : Libevent) (o : ByteOrder) (fd j : ℕ) where
  SmallAt-header :
      (s : Reading ev)
      → SmallAt j s.globals
      → After (λ _ s'. SmallAt j s'.globals) (SmallAfter j) 0 (read_header ev o fd s)
  unfolding read_header
  SmallAt-header s h =
      let (raw, input) = ev.remove s.channel.input 4 in
      ground (arith, at-insert 0 fd j (ntohl o (load_u32 o (fill 4 raw))) s.globals.session_info)

  SmallAt-body :
      (n : ℕ) (s : Reading ev)
      → SmallAt j s.globals
      → After (λ _ s'. SmallAt j s'.globals) (SmallAfter j) 0 (read_body ev o fd n s)
  unfolding read_body
  SmallAt-body n s h = ground arith

  SmallAt-round :
      (s : Reading ev)
      → SmallAt j s.globals
      → After (λ _ s'. SmallAt j s'.globals) (SmallAfter j) 0 (read_round ev o fd s)
  unfolding read_round
  SmallAt-round s h = ground (
    arith,
    SmallAt-header s h,
    SmallAt-body (at 0 fd s.globals.session_info) (record s {
      globals = record s.globals { session_info = touch 0 fd s.globals.session_info };
    }),
    at-touch 0 fd j s.globals.session_info,
  )

  pub readcb-SmallAt :
      (g : Globals) (c : Channel ev) (r : Called ev)
      → SmallAt j g
      → readcb ev o fd g c ≡ some r
      → SmallAfter j r
  unfolding readcb
  readcb-SmallAt g c r h e =
      repeat_keeps (λ s. SmallAt j s.globals) (SmallAfter j) (read_round ev o fd) SmallAt-round
        (suc (suc (2 * ev.get_length c.input))) (reading ev o fd g c) r h e

module _ (fd j : ℕ) (other : j ≢ fd) where
  pub errorcb-SameAt :
      (flags : ErrorFlags) (err : ℕ) (g : Globals) → SameAt fd g (errorcb flags err j g)
  unfolding errorcb
  errorcb-SameAt flags err g =
      ground (arith, at-erase 0 j fd g.recv_header, at-erase 0 j fd g.session_info)

  module _ {ev : Libevent} (s : Server ev) where
    pub do_accept-SameAt : SameAt fd s.globals (do_accept (some j) s).globals
    unfolding do_accept
    do_accept-SameAt = ground (arith, at-insert 0 j fd 1 s.globals.recv_header)

    pub lookup-do_accept : lookup fd (do_accept (some j) s).channels ≡ lookup fd s.channels
    unfolding do_accept
    lookup-do_accept =
        ground
          (arith, lookup-insert j fd (record { input = ev.empty; output = ev.empty }) s.channels)

pub errorcb-SmallAt :
    (flags : ErrorFlags) (err j k : ℕ) (g : Globals)
    → SmallAt k g
    → SmallAt k (errorcb flags err j g)
unfolding errorcb
errorcb-SmallAt flags err j k g h = ground (arith, at-erase 0 j k g.session_info)

pub do_accept-SmallAt :
    {ev : Libevent} (s : Server ev) (fd : Option ℕ) (k : ℕ)
    → SmallAt k s.globals
    → SmallAt k (do_accept fd s).globals
unfolding do_accept
do_accept-SmallAt s none k h = h
do_accept-SmallAt s (some fd) k h = ground arith

-- ===== src/MultiProcess/Accepts.antt =====
-- How many connections dev_examples/perf_libevent_multi_processes/server.cpp takes.
use test_code.Prelude.{
  ℕ, zero, suc, ◌+◌, ◌≤◌, ◌≡◌, refl, sym, subst, Bool, true, false, Option, none, some, List, [],
  ◌∷◌, arith, ltb, if◌then◌else◌,
}
use test_code.Wire.{ByteOrder}
use test_code.Libevent.{Libevent}
use test_code.PerfLibevent.{
  Server, Event, accepting, arriving, failing, Process, alive, dead, fd_setsize, arrive,
}
use test_code.MultiProcess.Callbacks.{as_child, child_step-arrive}
use test_code.Startup.{Calls, Main, returned, served, listening}
use test_code.MultiProcess.{
  Child, running, ended, forked, do_accept, child_step, step_at, run, Fork, failed, no_base, child,
  fork_all, server_main,
}

-- A connection that is taken.
unfoldable pub taken : Event → ℕ
taken (accepting none) = 0
taken (accepting (some fd)) = if ltb fd_setsize fd then 0 else 1
taken (arriving fd d) = 0
taken (failing fd flags err) = 0

unfoldable pub taken_in : List (ℕ × Event) → ℕ
taken_in [] = 0
taken_in ((i, e) ∷ more) = taken e + taken_in more

module _ {ev : Libevent} where
  listens : Child ev → ℕ
  listens (running true s) = 1
  listens (running false s) = 0
  listens ended = 0

  listeners : List (Child ev) → ℕ
  unfolding listens
  listeners [] = 0
  listeners (c ∷ cs) = listens c + listeners cs

  -- What is left to take after an event, if it is possible.
  abbrev Within : ℕ → ℕ → Option (List (Child ev)) → Type 0
  Within n before none = Unit
  Within n before (some cs) = n + listeners cs ≤ before

  abbrev WithinOne : ℕ → ℕ → Option (Child ev) → Type 0
  WithinOne n before none = Unit
  WithinOne n before (some c) = n + listens c ≤ before

  do_accept-WithinOne :
      (fd : Option ℕ) (s : Server ev) → WithinOne (taken (accepting fd)) 1 (some (do_accept fd s))
  unfolding do_accept taken listens
  do_accept-WithinOne none s = omega arith
  do_accept-WithinOne (some fd) s = ground arith

  module _ (o : ByteOrder) where
    as_child-WithinOne :
        (listening : Bool) (s : Server ev) (p : Option (Process ev))
        → WithinOne 0 (listens (running listening s)) (as_child listening p)
    unfolding listens
    as_child-WithinOne listening s none = tt
    as_child-WithinOne listening s (some dead) = omega arith
    as_child-WithinOne true s (some (alive s')) = omega arith
    as_child-WithinOne false s (some (alive s')) = omega arith

    child_step-WithinOne :
        (e : Event) (c : Child ev) → WithinOne (taken e) (listens c) (child_step o e c)
    unfolding child_step taken listens
    child_step-WithinOne e ended = tt
    child_step-WithinOne (accepting fd) (running true s) = do_accept-WithinOne fd s
    child_step-WithinOne (accepting fd) (running false s) = tt
    child_step-WithinOne (arriving fd d) (running listening s) =
        subst (WithinOne 0 (listens (running listening s)))
          (sym (child_step-arrive o listening fd d s))
          (as_child-WithinOne listening s (arrive o fd d s))
    child_step-WithinOne (failing fd flags err) (running true s) = omega arith
    child_step-WithinOne (failing fd flags err) (running false s) = omega arith

    step_at-Within :
        (i : ℕ) (e : Event) (cs : List (Child ev))
        → Within (taken e) (listeners cs) (step_at o i e cs)
    unfolding step_at listeners
    step_at-Within i e [] = tt
    step_at-Within zero e (c ∷ cs) = go (child_step o e c) (child_step-WithinOne e c)
      where
        go :
            (r : Option (Child ev))
            → WithinOne (taken e) (listens c) r
            → Within
                (taken e)
                (listens c + listeners cs)
                (elim r [ none ↦ none | some c' ↦ some (c' ∷ cs) ])
        go none h = tt
        go (some c') h = omega arith
    step_at-Within (suc i) e (c ∷ cs) = go (step_at o i e cs) (step_at-Within i e cs)
      where
        go :
            (r : Option (List (Child ev)))
            → Within (taken e) (listeners cs) r
            → Within
                (taken e)
                (listens c + listeners cs)
                (elim r [ none ↦ none | some cs' ↦ some (c ∷ cs') ])
        go none h = tt
        go (some cs') h = omega arith

    run-Within :
        (more : List (ℕ × Event)) (cs : List (Child ev))
        → Within (taken_in more) (listeners cs) (run o cs more)
    unfolding run taken_in
    run-Within [] cs = omega arith
    run-Within ((i, e) ∷ more) cs = go (step_at o i e cs) (step_at-Within i e cs) (run-Within more)
      where
        grow :
            (r : Option (List (Child ev))) (before : ℕ)
            → Within (taken_in more) before r
            → taken e + before ≤ listeners cs
            → Within (taken e + taken_in more) (listeners cs) r
        grow none before h k = tt
        grow (some cs') before h k = omega arith

        go :
            (r : Option (List (Child ev)))
            → Within (taken e) (listeners cs) r
            → ((cs' : List (Child ev)) → Within (taken_in more) (listeners cs') (run o cs' more))
            → Within
                (taken e + taken_in more)
                (listeners cs)
                (elim r [ none ↦ none | some cs' ↦ run o cs' more ])
        go none h ih = tt
        go (some cs') h ih = grow (run o cs' more) (listeners cs') (ih cs') h

listeners-forked : (ev : Libevent) (n : ℕ) → listeners {ev = ev} (forked n) ≡ n
unfolding listeners listens
listeners-forked ev zero = refl
listeners-forked ev (suc n) = omega (arith, listeners-forked ev n)

-- However the children run, and whatever their clients do, all of them together take at most as many
-- connections as there are children.
pub taken_in-le :
    {ev : Libevent} (o : ByteOrder) (n : ℕ) (more : List (ℕ × Event)) (cs : List (Child ev))
    → run o (forked n) more ≡ some cs
    → taken_in more ≤ n
taken_in-le {ev} o n more cs e =
    let within : Within (taken_in more) (listeners (forked n)) (some cs) =
      subst (Within (taken_in more) (listeners (forked n))) e (run-Within o more (forked n)) in
    omega (arith, within, listeners-forked ev n)

fork_all-le : (ev : Libevent) (n : ℕ) (fs : List Fork) → listeners {ev = ev} (fork_all n fs) ≤ n
unfolding fork_all listeners listens
fork_all-le ev zero fs = omega arith
fork_all-le ev (suc n) [] = omega arith
fork_all-le ev (suc n) (failed ∷ fs) = omega (arith, fork_all-le ev n fs)
fork_all-le ev (suc n) (no_base ∷ fs) = omega (arith, fork_all-le ev n fs)
fork_all-le ev (suc n) (child ∷ fs) = omega (arith, fork_all-le ev n fs)

-- What `main` comes to, if it serves.
AtMost : (ev : Libevent) → ℕ → Main (Option (List (Child ev))) → Type 0
AtMost ev n (returned status) = Unit
AtMost ev n (served none) = Unit
AtMost ev n (served (some cs)) = n ≤ 5

server_main-AtMost :
    (ev : Libevent) (o : ByteOrder) (argc : ℕ) (calls : Calls) (forks : List Fork)
    (more : List (ℕ × Event))
    → AtMost ev (taken_in more) (server_main {ev = ev} o argc calls forks more)
unfolding server_main AtMost
server_main-AtMost ev o argc calls forks more =
    let ran = go (run o (fork_all 5 forks) more) (run-Within o more (fork_all 5 forks)) in
    ground (arith, ran)
  where
    go :
        (r : Option (List (Child ev)))
        → Within (taken_in more) (listeners (fork_all {ev = ev} 5 forks)) r
        → AtMost ev (taken_in more) (served r)
    go none h = tt
    go (some cs) h = omega (arith, fork_all-le ev 5 forks)

-- Whatever the calls of main return, however many of its forks succeed, however the children run and
-- whatever their clients do, the server takes at most five connections in all.
pub server_main-le :
    {ev : Libevent} (o : ByteOrder) (argc : ℕ) (calls : Calls) (forks : List Fork)
    (more : List (ℕ × Event)) (cs : List (Child ev))
    → server_main o argc calls forks more ≡ served (some cs)
    → taken_in more ≤ 5
unfolding AtMost
server_main-le {ev} o argc calls forks more cs e =
    subst (AtMost ev (taken_in more)) e (server_main-AtMost ev o argc calls forks more)

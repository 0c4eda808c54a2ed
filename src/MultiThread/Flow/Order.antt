-- ===== src/MultiThread/Flow/Order.antt =====
-- What a client of dev_examples/libevent_multithreads gets, whatever the threads and the other clients
-- do.
use native.Mathlib.Decide.{ℕ_discrete}
use test_code.Prelude.{
  ℕ, ◌+◌, ◌^◌, ◌<◌, ◌≡◌, sym, subst, ap, ◌∙◌, ◌≢◌, true, false, List, [], ◌∷◌, ◌++◌, arith, All,
  ◌==◌, if◌then◌else◌, length, length-append, append_assoc, append-nil, Option-cases, inl, inr,
  flatten,
}
use test_code.Prelude.Map.{lookup}
use test_code.Wire.{Bytes, ByteOrder}
use test_code.Libevent.{Libevent, IsByteQueue}
use test_code.CfQueue.{CfQueue, IsFifo}
use test_code.Framing.{Stop, waiting, refused, decode}
use test_code.Framing.Decode.{rest-decode}
use test_code.Framing.Echo.{Seen, open_at, ended, echoed, advance, advance_split}
use test_code.MultiThread.Reader.{size_limit}
use test_code.MultiThread.Server.{
  MainThread, dispatching, delivering, State, Result, went, disabled, failed, Action, accepting,
  arriving, failing, notified, deliver, getting, putting, writing, dispatch, on_main, act, run,
}
use test_code.MultiThread.Server.Runs.{Outcome}
use test_code.MultiThread.Flow.Route.{Good}
use test_code.MultiThread.Flow.Keep.{act-Good}
use test_code.MultiThread.Flow.Track.{Quiet, seen_at}
use test_code.MultiThread.Flow.Events.{act-Same}
use test_code.MultiThread.Flow.Arrive.{Shows, arrive-own}

-- Actions that do not close the connection of a descriptor.
abbrev pub Spares : ℕ → Action → Type 0
Spares fd (failing j) = j ≢ fd
Spares fd a = Unit

-- The pieces that come in on the descriptor, in order.
abbrev pub pieces : ℕ → List Action → List Bytes
pieces fd [] = []
pieces fd (arriving j d ∷ more) = if j == fd then d ∷ pieces fd more else pieces fd more
pieces fd (a ∷ more) = pieces fd more

-- What a run does to what is seen of the connection.
pub absorb_all : ℕ → Seen → List Action → Seen
absorb_all fd v [] = v
absorb_all fd v (arriving j d ∷ more) =
    absorb_all fd (if j == fd then advance size_limit v d else v) more
absorb_all fd v (a ∷ more) = absorb_all fd v more

pub absorb_all-pieces :
    (fd : ℕ) (more : List Action) (v : Seen) (a : Bytes)
    → absorb_all fd (advance size_limit v a) more
      ≡ advance size_limit v (a ++ flatten (pieces fd more))
unfolding absorb_all
absorb_all-pieces fd [] v a = ap (advance size_limit v) (sym (append-nil a))
absorb_all-pieces fd (arriving j d ∷ more) v a = elim (ℕ_discrete j fd) [
  | yes own ↦
      let hit : (j == fd) ≡ true = ground arith in
      rw hit (
        ap (λ x. absorb_all fd x more) (advance_split size_limit v a d)
        ∙ absorb_all-pieces fd more v (a ++ d)
        ∙ ap (advance size_limit v) (append_assoc a d (flatten (pieces fd more))))
  | no other ↦
      let miss : (j == fd) ≡ false = ground arith in rw miss (absorb_all-pieces fd more v a)
]
absorb_all-pieces fd (accepting j ∷ more) v a = absorb_all-pieces fd more v a
absorb_all-pieces fd (failing j ∷ more) v a = absorb_all-pieces fd more v a
absorb_all-pieces fd (notified i ∷ more) v a = absorb_all-pieces fd more v a
absorb_all-pieces fd (deliver ∷ more) v a = absorb_all-pieces fd more v a
absorb_all-pieces fd (getting i ∷ more) v a = absorb_all-pieces fd more v a
absorb_all-pieces fd (putting i ∷ more) v a = absorb_all-pieces fd more v a
absorb_all-pieces fd (writing i ∷ more) v a = absorb_all-pieces fd more v a

-- So many more bytes leave the input within an `int`.
abbrev pub Fits : Seen → ℕ → Type 0
Fits (open_at m rest out) n = length rest + n < 2 ^ 31
Fits ended n = Unit

less : (v : Seen) (n k : ℕ) → Fits v (n + k) → Fits v n
less (open_at m rest out) n k h = omega arith
less ended n k h = tt

Fits-echoed :
    (out : Bytes) (ms : List Bytes) (st : Stop) (rest : Bytes) (n : ℕ)
    → length rest + n < 2 ^ 31
    → Fits (echoed out (record { messages = ms; stop = st; rest = rest })) n
Fits-echoed out ms (waiting m) rest n h = h
Fits-echoed out ms refused rest n h = tt

Fits-advance :
    (v : Seen) (d : Bytes) (n : ℕ) → Fits v (length d + n) → Fits (advance size_limit v d) n
Fits-advance ended d n h = tt
Fits-advance (open_at m rest out) d n h =
    let dd = decode size_limit m (rest ++ d) in
    Fits-echoed out dd.messages dd.stop dd.rest n
      (omega (arith, rest-decode size_limit m (rest ++ d), length-append rest d))

module _ {ev : Libevent} {cf : CfQueue} (q : IsByteQueue ev) (fifo : IsFifo cf) (threads fd : ℕ)
    (some_threads : 0 < threads) (o : ByteOrder) where
  abbrev pub Sh : Seen → State ev cf → Type 0
  Sh = Shows q fifo threads fd

  abbrev pub After : Seen → Result ev cf → Type 0
  After v = Outcome (Sh v) Unit

  anything : (r : Result ev cf) → After ended r
  anything (went s) = tt
  anything disabled = tt
  anything failed = tt

  module _ (s : State ev cf) (good : Good q fifo threads some_threads s) where
    Quiet-Shows : (a : Action) (v : Seen) → Quiet fd a → Sh v s → After v (act o threads a s)
    Quiet-Shows a ended quiet h = anything (act o threads a s)
    Quiet-Shows a (open_at m rest out) quiet h = elim (Option-cases (lookup fd s.sessions)) [
      | inl missing ↦ absurd (let h' = rw missing at h in cc)
      | inr (si, found) ↦
          go (act o threads a s) (act-Same q fifo threads fd some_threads s good si found o a quiet)
    ]
      where
        go :
            (r : Result ev cf)
            → Outcome (λ s'. seen_at q fifo threads fd s' ≡ seen_at q fifo threads fd s) Unit r
            → After (open_at m rest out) r
        go (went s') e = e ∙ h
        go disabled e = tt
        go failed e = tt

    own-Shows :
        (d : Bytes) (v : Seen)
        → Sh v s
        → Fits v (length d)
        → After (advance size_limit v d) (act o threads (arriving fd d) s)
    unfolding act dispatch
    own-Shows d ended h fits = anything (act o threads (arriving fd d) s)
    own-Shows d (open_at m rest out) h fits = go s.main_thread
      where
        go :
            (t : MainThread)
            → After
                (advance size_limit (open_at m rest out) d)
                (on_main o threads (arriving fd d) t s)
        go dispatching = arrive-own q fifo threads fd some_threads s good o d m rest out h fits
        go delivering = tt

  pub continue :
      (more : List Action) (r : Result ev cf) (v : Seen)
      → Outcome (Good q fifo threads some_threads) ⊥ r
      → After v r
      → ((s' : State ev cf)
          → Good q fifo threads some_threads s'
          → Sh v s'
          → After (absorb_all fd v more) (run o threads s' more))
      → After
          (absorb_all fd v more)
          (elim r [ went s' ↦ run o threads s' more | disabled ↦ disabled | failed ↦ failed ])
  continue more (went s') v g h ih = ih s' g h
  continue more disabled v g h ih = tt
  continue more failed v g h ih = tt

  Quiet-step :
      (a : Action) (more : List Action) (s : State ev cf) (v : Seen)
      → Good q fifo threads some_threads s
      → Quiet fd a
      → Sh v s
      → ((s' : State ev cf)
          → Good q fifo threads some_threads s'
          → Sh v s'
          → After (absorb_all fd v more) (run o threads s' more))
      → After (absorb_all fd v more) (run o threads s (a ∷ more))
  unfolding run
  Quiet-step a more s v good quiet h ih =
      continue more (act o threads a s) v (act-Good q fifo threads some_threads o s good a)
        (Quiet-Shows s good a v quiet h) ih

  pub run-Shows :
      (more : List Action) (s : State ev cf) (v : Seen)
      → Good q fifo threads some_threads s
      → All (Spares fd) more
      → Sh v s
      → Fits v (length (flatten (pieces fd more)))
      → After (absorb_all fd v more) (run o threads s more)
  unfolding run absorb_all
  run-Shows [] s v good spares h fits = h
  run-Shows (arriving j d ∷ more) s v good (spare, spares) h fits = elim (ℕ_discrete j fd) [
    | yes own ↦
        let hit : (j == fd) ≡ true = ground arith in
        let fits' : Fits v (length d + length (flatten (pieces fd more))) =
          subst (Fits v) (length-append d (flatten (pieces fd more))) (rw hit at fits) in
        rw (hit, own)
          (continue more (act o threads (arriving fd d) s) (advance size_limit v d)
            (act-Good q fifo threads some_threads o s good (arriving fd d))
            (own-Shows s good d v h (less v (length d) _ fits'))
            (λ s' g' h'.
              run-Shows more s' (advance size_limit v d) g' spares h' (Fits-advance v d _ fits')))
    | no other ↦
        let miss : (j == fd) ≡ false = ground arith in
        rw miss (
          Quiet-step (arriving j d) more s v good other h
            (λ s' g' h'. run-Shows more s' v g' spares h' (rw miss at fits)))
  ]
  run-Shows (accepting j ∷ more) s v good (spare, spares) h fits =
      Quiet-step (accepting j) more s v good tt h
        (λ s' g' h'. run-Shows more s' v g' spares h' fits)
  run-Shows (failing j ∷ more) s v good (spare, spares) h fits =
      Quiet-step (failing j) more s v good spare h
        (λ s' g' h'. run-Shows more s' v g' spares h' fits)
  run-Shows (notified i ∷ more) s v good (spare, spares) h fits =
      Quiet-step (notified i) more s v good tt h (λ s' g' h'. run-Shows more s' v g' spares h' fits)
  run-Shows (deliver ∷ more) s v good (spare, spares) h fits =
      Quiet-step deliver more s v good tt h (λ s' g' h'. run-Shows more s' v g' spares h' fits)
  run-Shows (getting i ∷ more) s v good (spare, spares) h fits =
      Quiet-step (getting i) more s v good tt h (λ s' g' h'. run-Shows more s' v g' spares h' fits)
  run-Shows (putting i ∷ more) s v good (spare, spares) h fits =
      Quiet-step (putting i) more s v good tt h (λ s' g' h'. run-Shows more s' v g' spares h' fits)
  run-Shows (writing i ∷ more) s v good (spare, spares) h fits =
      Quiet-step (writing i) more s v good tt h (λ s' g' h'. run-Shows more s' v g' spares h' fits)

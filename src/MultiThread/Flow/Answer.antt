-- ===== src/MultiThread/Flow/Answer.antt =====
-- The answers of dev_examples/libevent_multithreads to a client, whatever the threads and the other
-- clients do.
use test_code.Prelude.{
  ℕ, ◌^◌, ◌≤◌, ◌<◌, ◌≡◌, refl, sym, subst, ap, ◌∙◌, none, some, List, [], ◌∷◌, ◌++◌, arith, All,
  length, append-nil, Option-cases, inl, inr, flatten, le→ltb,
}
use test_code.Prelude.Map.{lookup, lookup-insert_self}
use test_code.Wire.{Bytes, ByteOrder}
use test_code.Libevent.{Libevent, IsByteQueue}
use test_code.CfQueue.{CfQueue, IsFifo}
use test_code.Framing.{header, decode, encode_all, IsSendable}
use test_code.Framing.Decode.{decode-header_short}
use test_code.Framing.Echo.{open_at, echoed, echoed-wait, advance, stream_echoed}
use test_code.MultiThread.Reader.{Session, new_session, size_limit}
use test_code.MultiThread.Reader.See.{session_mode}
use test_code.MultiThread.Server.{
  fd_setsize, MainThread, dispatching, delivering, State, went, Action, accepting, insert_new,
  acceptcb, start, dispatch, on_main, act, run,
}
use test_code.MultiThread.Server.Runs.{Outcome}
use test_code.MultiThread.Flow.Route.{Good}
use test_code.MultiThread.Flow.Keep.{act-Good, run-Good}
use test_code.MultiThread.Flow.Track.{seen_at, on_way}
use test_code.MultiThread.Flow.Arrive.{Shows}
use test_code.MultiThread.Flow.Order.{
  Spares, pieces, absorb_all, absorb_all-pieces, After, continue, run-Shows,
}

module _ {ev : Libevent} {cf : CfQueue} (q : IsByteQueue ev) (fifo : IsFifo cf) (threads fd : ℕ)
    (some_threads : 0 < threads) (o : ByteOrder) where
  abbrev way : State ev cf → Bytes
  way = on_way q fifo threads fd

  -- A session that is new finds the bytes that are on their way to its descriptor.
  accept-Shows :
      (s : State ev cf)
      → lookup fd s.sessions ≡ none
      → fd ≤ fd_setsize
      → After q fifo threads fd some_threads o
          (open_at header [] (way s))
          (act o threads (accepting (some fd)) s)
  unfolding act dispatch acceptcb insert_new new_session session_mode
  accept-Shows s missing fits = go s.main_thread
    where
      fresh :
          Shows q fifo threads fd
            (open_at header [] (way s))
            (record s { sessions = acceptcb (some fd) s.sessions })
      fresh =
          rw
            (
              le→ltb fd_setsize fd fits,
              missing,
              insert_new,
              lookup-insert_self fd (new_session (record { input = ev.empty; output = ev.empty }))
                  s.sessions,
              q.empty_lem,
            )
            refl

      go :
          (t : MainThread)
          → After q fifo threads fd some_threads o
              (open_at header [] (way s))
              (on_main o threads (accepting (some fd)) t s)
      go dispatching = fresh
      go delivering = tt

  -- The theorem below, for a state that is good.
  answered :
      (s s' : State ev cf) (more : List Action) (ps : List Bytes)
      → Good q fifo threads some_threads s
      → lookup fd s.sessions ≡ none
      → fd ≤ fd_setsize
      → All (Spares fd) more
      → All (IsSendable size_limit) ps
      → flatten (pieces fd more) ≡ encode_all ps
      → length (encode_all ps) < 2 ^ 31
      → run o threads s (accepting (some fd) ∷ more) ≡ went s'
      → seen_at q fifo threads fd s' ≡ some (open_at header [] (way s ++ encode_all ps))
  unfolding run
  answered s s' more ps good missing fits spares sendable bytes short ends =
      let v = open_at header [] (way s) in
      let idle : advance size_limit v [] ≡ v =
        ap (echoed (way s)) (decode-header_short size_limit [] (omega arith))
        ∙ echoed-wait (way s) header [] in
      let all : absorb_all fd v more ≡ open_at header [] (way s ++ encode_all ps) =
        ap (λ x. absorb_all fd x more) (sym idle)
        ∙ absorb_all-pieces fd more v []
        ∙ ap (λ x. echoed (way s) (decode size_limit header x))
            (bytes ∙ sym (append-nil (encode_all ps)))
        ∙ stream_echoed size_limit (omega arith) (way s) ps [] sendable
        ∙ ap (echoed (way s ++ encode_all ps)) (decode-header_short size_limit [] (omega arith))
        ∙ echoed-wait (way s ++ encode_all ps) header [] in
      let after =
        continue q fifo threads fd some_threads o more (act o threads (accepting (some fd)) s) v
          (act-Good q fifo threads some_threads o s good (accepting (some fd)))
          (accept-Shows s missing fits)
          (λ s1 g1 h1.
            run-Shows q fifo threads fd some_threads o more s1 v g1 spares h1
              (omega (arith, ap length bytes))) in
      subst (λ x. Shows q fifo threads fd x s') all
        (subst (After q fifo threads fd some_threads o (absorb_all fd v more)) ends after)

  pub reachable-Good :
      (before : List Action) (s : State ev cf)
      → run o threads (start threads) before ≡ went s
      → Good q fifo threads some_threads s
  reachable-Good before s e =
      subst (Outcome (Good q fifo threads some_threads) ⊥) e
        (run-Good q fifo threads some_threads o before)

  -- In any state that the threads can get to, a client is accepted under a descriptor without a
  -- session, and sends messages of 1 to 1024000 bytes, fewer than 2 ^ 31 bytes in all, in pieces of any
  -- sizes and between any steps of the workers, of the event loop and of other clients, except that
  -- its own connection does not fail. Then, in every state that this leads to, its session waits for
  -- a header and has no byte unread; and what is in its output and what is on its way there are,
  -- together, first what was on its way to the descriptor before it was accepted, and then these
  -- messages, each behind its length, in order.
  pub sent_in_order :
      (before more : List Action) (s s' : State ev cf) (ps : List Bytes)
      → run o threads (start threads) before ≡ went s
      → lookup fd s.sessions ≡ none
      → fd ≤ fd_setsize
      → All (Spares fd) more
      → All (IsSendable size_limit) ps
      → flatten (pieces fd more) ≡ encode_all ps
      → length (encode_all ps) < 2 ^ 31
      → run o threads s (accepting (some fd) ∷ more) ≡ went s'
      → (si : Session ev) × (lookup fd s'.sessions ≡ some si)
        × (session_mode si ≡ header)
        × (q.bytes si.bev.input ≡ [])
        × (q.bytes si.bev.output ++ way s' ≡ way s ++ encode_all ps)
  sent_in_order before more s s' ps reached missing fits spares sendable bytes short ends =
      let seen =
        answered s s' more ps (reachable-Good before s reached) missing fits spares sendable bytes
          short ends in
      elim (Option-cases (lookup fd s'.sessions)) [
        | inl gone ↦ absurd (let seen' = rw gone at seen in cc)
        | inr (si, found) ↦
            let seen' : some (
                  open_at (session_mode si) (q.bytes si.bev.input)
                    (q.bytes si.bev.output ++ way s'))
                ≡ some (open_at header [] (way s ++ encode_all ps)) =
              rw found at seen in
            (si, found, cc, cc, cc)
      ]

-- ===== src/MultiThread/Flow/End.antt =====
-- What a client of dev_examples/libevent_multithreads has got when the threads come to rest.
use test_code.Prelude.{
  ℕ, ◌^◌, ◌≤◌, ◌<◌, ◌≡◌, refl, ap, ◌∙◌, none, some, List, [], ◌∷◌, ◌++◌, append-nil, arith, All,
  All-append, flatten, ◌==◌, Bool-cases, length, inl, inr,
}
use test_code.Prelude.Map.{lookup}
use test_code.Wire.{Bytes, ByteOrder}
use test_code.Libevent.{Libevent, IsByteQueue}
use test_code.CfQueue.{CfQueue, IsFifo}
use test_code.Framing.{encode_all, IsSendable}
use test_code.MultiThread.Reader.{Session, size_limit}
use test_code.MultiThread.Server.{
  fd_setsize, State, went, Action, accepting, arriving, failing, notified, deliver, getting,
  putting, writing, start, run,
}
use test_code.MultiThread.Server.Runs.{run_append}
use test_code.MultiThread.Flow.Track.{on_way}
use test_code.MultiThread.Flow.Order.{Spares, pieces}
use test_code.MultiThread.Flow.Answer.{reachable-Good}
use test_code.MultiThread.Flow.Rest.{AtRest, answered-AtRest}
use test_code.MultiThread.Flow.Measure.{Own, work, run-work}
use test_code.MultiThread.Flow.Settle.{settles}

pieces-append : (fd : ℕ) (xs ys : List Action) → pieces fd (xs ++ ys) ≡ pieces fd xs ++ pieces fd ys
pieces-append fd [] ys = refl
pieces-append fd (arriving j d ∷ xs) ys = elim (Bool-cases (j == fd)) [
  | inl own ↦ rw own (ap (◌∷◌ d) (pieces-append fd xs ys))
  | inr other ↦ rw other (pieces-append fd xs ys)
]
pieces-append fd (accepting j ∷ xs) ys = pieces-append fd xs ys
pieces-append fd (failing j ∷ xs) ys = pieces-append fd xs ys
pieces-append fd (notified i ∷ xs) ys = pieces-append fd xs ys
pieces-append fd (deliver ∷ xs) ys = pieces-append fd xs ys
pieces-append fd (getting i ∷ xs) ys = pieces-append fd xs ys
pieces-append fd (putting i ∷ xs) ys = pieces-append fd xs ys
pieces-append fd (writing i ∷ xs) ys = pieces-append fd xs ys

-- Steps that need nothing from outside bring no bytes and close no connection.
Own-pieces :
    (fd : ℕ) (more : List Action) → All Own more → (pieces fd more ≡ []) × All (Spares fd) more
Own-pieces fd [] h = (refl, tt)
Own-pieces fd (accepting j ∷ more) h = absurd (h.0)
Own-pieces fd (arriving j d ∷ more) h = absurd (h.0)
Own-pieces fd (failing j ∷ more) h = absurd (h.0)
Own-pieces fd (notified i ∷ more) h = let (e, k) = Own-pieces fd more (h.1) in (e, (tt, k))
Own-pieces fd (deliver ∷ more) h = let (e, k) = Own-pieces fd more (h.1) in (e, (tt, k))
Own-pieces fd (getting i ∷ more) h = let (e, k) = Own-pieces fd more (h.1) in (e, (tt, k))
Own-pieces fd (putting i ∷ more) h = let (e, k) = Own-pieces fd more (h.1) in (e, (tt, k))
Own-pieces fd (writing i ∷ more) h = let (e, k) = Own-pieces fd more (h.1) in (e, (tt, k))

module _ {ev : Libevent} {cf : CfQueue} (q : IsByteQueue ev) (fifo : IsFifo cf) (threads fd : ℕ)
    (some_threads : 0 < threads) (o : ByteOrder) where
  -- The output of the session of the descriptor.
  abbrev pub HasOutput : State ev cf → Bytes → Type 0
  HasOutput s bs =
      (si : Session ev) × (lookup fd s.sessions ≡ some si) × (q.bytes si.bev.output ≡ bs)

  -- In any state that the threads can get to, a client is accepted under a descriptor without a
  -- session, and sends messages of 1 to 1024000 bytes, fewer than 2 ^ 31 bytes in all, in pieces of any
  -- sizes and between any steps of the workers, of the event loop and of other clients, except that
  -- its own connection does not fail. Whatever steps the threads then take that need nothing from
  -- outside, there are no more of them than the work that was left, and others lead on to a state where
  -- no thread has such a step; there its output holds these messages, each behind its length, in order,
  -- and in front of them only what was on its way to the descriptor before it was accepted.
  pub answered_in_the_end :
      (before more own : List Action) (s s1 s2 : State ev cf) (ps : List Bytes)
      → run o threads (start threads) before ≡ went s
      → lookup fd s.sessions ≡ none
      → fd ≤ fd_setsize
      → All (Spares fd) more
      → All (IsSendable size_limit) ps
      → flatten (pieces fd more) ≡ encode_all ps
      → length (encode_all ps) < 2 ^ 31
      → run o threads s (accepting (some fd) ∷ more) ≡ went s1
      → All Own own
      → run o threads s1 own ≡ went s2
      → (length own ≤ work fifo s1)
        × ((rest : List Action) × All Own rest
            × ((s3 : State ev cf) × (run o threads s2 rest ≡ went s3)
                × AtRest o threads s3
                × HasOutput s3 (on_way q fifo threads fd s ++ encode_all ps)))
  answered_in_the_end before more own s s1 s2 ps reached missing fits spares sendable bytes short
        ran owns own_ran =
      let sent = accepting (some fd) ∷ more in
      let to_s1 = run_append o threads before sent (start threads) s reached ∙ ran in
      let to_s2 = run_append o threads (before ++ sent) own (start threads) s1 to_s1 ∙ own_ran in
      let good =
        reachable-Good q fifo threads fd some_threads o ((before ++ sent) ++ own) s2 to_s2 in
      let (rest, rest_owns, (s3, rest_ran, at_rest)) =
        settles q fifo threads some_threads o s2 good in
      let last = own ++ rest in
      let (no_pieces, last_spares) = Own-pieces fd last (All-append Own own rest owns rest_owns) in
      let all_pieces : flatten (pieces fd (more ++ last)) ≡ encode_all ps =
        ap flatten (
          pieces-append fd more last
          ∙ ap (λ x. pieces fd more ++ x) no_pieces
          ∙ append-nil (pieces fd more))
        ∙ bytes in
      let to_s3 : run o threads s (accepting (some fd) ∷ (more ++ last)) ≡ went s3 =
        run_append o threads sent last s s1 ran
        ∙ run_append o threads own rest s1 s2 own_ran
        ∙ rest_ran in
      let (si, found, output) =
        answered-AtRest q fifo threads fd some_threads o before (more ++ last) s s3 ps reached
          missing fits (All-append (Spares fd) more last spares last_spares) sendable all_pieces
          short to_s3 at_rest in
      (
        omega (arith, run-work fifo o threads own s1 s2 owns own_ran),
        (rest, rest_owns, (s3, rest_ran, at_rest, (si, found, output))),
      )

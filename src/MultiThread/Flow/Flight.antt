-- ===== src/MultiThread/Flow/Flight.antt =====
-- What the steps of dev_examples/libevent_multithreads do to the bytes that are on their way to one
-- descriptor.
use native.Mathlib.Decide.{ℕ_discrete}
use test_code.Prelude.{
  ℕ, ◌%◌, ◌^◌, ◌<◌, ◌≡◌, refl, sym, ap, ap₂, ◌∙◌, ◌≢◌, some, List, [], ◌∷◌, ◌++◌, arith, All,
  get_elem?, length, append_assoc, append-nil, adjust, flatten, flatten-append, map,
}
use test_code.Wire.{Bytes, ByteOrder, to_be32, store_u32-htonl}
use test_code.CfQueue.{CfQueue, QueueEle, IsFifo}
use test_code.Framing.{encode, encode_all}
use test_code.Framing.Echo.{encode_all-append}
use test_code.MultiThread.Reader.See.{put_all, ele}
use test_code.MultiThread.Server.{Phase, holding, notifying, idle, answer}
use test_code.MultiThread.Flow.{of_fd, held, backlog, in_flight}
use test_code.MultiThread.Flow.Backlog.{
  of_fd-append, backlog-get, backlog-phase, backlog-put, backlog-put_ne, backlog-put_all,
  backlog-put_all_ne,
}

-- The worker's answer is the message as the protocol has it on the wire.
pub answer-encode : (o : ByteOrder) (qe : QueueEle) → (answer o qe).payload ≡ encode qe.payload
unfolding answer encode
answer-encode o qe =
    let low : to_be32 (length qe.payload % 2 ^ 32) ≡ to_be32 (length qe.payload) =
      unfold to_be32 in ground arith in
    ap (λ bs. bs ++ qe.payload) (store_u32-htonl o (length qe.payload % 2 ^ 32) ∙ low)

of_fd-hit :
    (fd : ℕ) (e : QueueEle) (es : List QueueEle)
    → e.fd ≡ fd
    → of_fd fd (e ∷ es) ≡ e.payload ∷ of_fd fd es
unfolding of_fd
of_fd-hit fd e es h = ground arith

of_fd-miss :
    (fd : ℕ) (e : QueueEle) (es : List QueueEle) → e.fd ≢ fd → of_fd fd (e ∷ es) ≡ of_fd fd es
unfolding of_fd
of_fd-miss fd e es h = ground arith

of_fd-own : (fd : ℕ) (ms : List Bytes) → of_fd fd (map (ele fd) ms) ≡ ms
unfolding of_fd
of_fd-own fd [] = refl
of_fd-own fd (m ∷ ms) =
    of_fd-hit fd (ele fd m) (map (ele fd) ms) refl ∙ ap (◌∷◌ m) (of_fd-own fd ms)

of_fd-others :
    (fd j : ℕ) (es : List QueueEle)
    → j ≢ fd
    → All (λ (e : QueueEle). e.fd ≡ j) es
    → of_fd fd es ≡ []
unfolding of_fd
of_fd-others fd j [] h own = refl
of_fd-others fd j (e ∷ es) h (own, owns) =
    of_fd-miss fd e es (λ e'. h (sym own ∙ e')) ∙ of_fd-others fd j es h owns

of_fd-nil : (fd : ℕ) → of_fd fd [] ≡ []
unfolding of_fd
of_fd-nil fd = refl

module _ {cf : CfQueue} (fifo : IsFifo cf) (fd w : ℕ) where
  -- Only the backlog of worker `w` counts.
  flight-backlog :
      (ws ws' : List Phase) (qs qs' : List cf.Queue) (out : cf.Queue)
      → backlog fifo w ws' qs' ≡ backlog fifo w ws qs
      → in_flight fifo fd w ws' qs' out ≡ in_flight fifo fd w ws qs out
  unfolding in_flight
  flight-backlog ws ws' qs qs' out e =
      ap (λ b. flatten (of_fd fd (fifo.items out)) ++ encode_all (of_fd fd b)) e

  pub flight-get :
      (i : ℕ) (qe : QueueEle) (c rest : cf.Queue) (ws : List Phase) (qs : List cf.Queue)
      (out : cf.Queue)
      → get_elem? ws i ≡ some idle
      → get_elem? qs i ≡ some c
      → fifo.items c ≡ qe ∷ fifo.items rest
      → in_flight fifo fd w (adjust i (λ _. holding qe) ws) (adjust i (λ _. rest) qs) out
        ≡ in_flight fifo fd w ws qs out
  flight-get i qe c rest ws qs out hw hq e =
      flight-backlog ws _ qs _ out (backlog-get fifo i w qe c rest ws qs hw hq e)

  pub flight-phase :
      (i : ℕ) (p p' : Phase) (ws : List Phase) (qs : List cf.Queue) (out : cf.Queue)
      → get_elem? ws i ≡ some p
      → held p ≡ held p'
      → in_flight fifo fd w (adjust i (λ _. p') ws) qs out ≡ in_flight fifo fd w ws qs out
  flight-phase i p p' ws qs out hw e =
      flight-backlog ws _ qs qs out (backlog-phase fifo i w p p' ws qs hw e)

  -- An answer that is taken out of the queue.
  pub flight-take :
      (e : QueueEle) (ws : List Phase) (qs : List cf.Queue) (out rest : cf.Queue)
      → fifo.items out ≡ e ∷ fifo.items rest
      → e.fd ≡ fd
      → in_flight fifo fd w ws qs out ≡ e.payload ++ in_flight fifo fd w ws qs rest
  unfolding in_flight
  flight-take e ws qs out rest taken own =
      ap (λ xs. flatten (of_fd fd xs) ++ encode_all (of_fd fd (backlog fifo w ws qs))) taken
      ∙ rw (of_fd-hit fd e (fifo.items rest) own) (
          append_assoc e.payload (flatten (of_fd fd (fifo.items rest)))
            (encode_all (of_fd fd (backlog fifo w ws qs))))

  pub flight-take_other :
      (e : QueueEle) (ws : List Phase) (qs : List cf.Queue) (out rest : cf.Queue)
      → fifo.items out ≡ e ∷ fifo.items rest
      → e.fd ≢ fd
      → in_flight fifo fd w ws qs out ≡ in_flight fifo fd w ws qs rest
  unfolding in_flight
  flight-take_other e ws qs out rest taken other =
      ap (λ xs. flatten (of_fd fd xs) ++ encode_all (of_fd fd (backlog fifo w ws qs))) (taken)
      ∙ ap (λ ys. flatten ys ++ encode_all (of_fd fd (backlog fifo w ws qs)))
          (of_fd-miss fd e (fifo.items rest) other)

  -- Messages that come in for the descriptor are the last ones on their way.
  pub flight-put_all :
      (ms : List Bytes) (ws : List Phase) (qs : List cf.Queue) (out : cf.Queue)
      → w < length qs
      → in_flight fifo fd w ws (put_all cf w (map (ele fd) ms) qs) out
        ≡ in_flight fifo fd w ws qs out ++ encode_all ms
  unfolding in_flight
  flight-put_all ms ws qs out inside =
      let before = of_fd fd (backlog fifo w ws qs) in
      let all : of_fd fd (backlog fifo w ws (put_all cf w (map (ele fd) ms) qs)) ≡ before ++ ms =
        ap (of_fd fd) (backlog-put_all fifo w (map (ele fd) ms) ws qs inside)
        ∙ of_fd-append fd (backlog fifo w ws qs) (map (ele fd) ms)
        ∙ ap (λ xs. before ++ xs) (of_fd-own fd ms) in
      ap (λ xs. flatten (of_fd fd (fifo.items out)) ++ encode_all xs) all
      ∙ ap (λ bs. flatten (of_fd fd (fifo.items out)) ++ bs) (encode_all-append before ms)
      ∙ sym (append_assoc (flatten (of_fd fd (fifo.items out))) (encode_all before) (encode_all ms))

  pub flight-put_all_others :
      (i j : ℕ) (es : List QueueEle) (ws : List Phase) (qs : List cf.Queue) (out : cf.Queue)
      → i < length qs
      → j ≢ fd
      → All (λ (e : QueueEle). e.fd ≡ j) es
      → in_flight fifo fd w ws (put_all cf i es qs) out ≡ in_flight fifo fd w ws qs out
  unfolding in_flight
  flight-put_all_others i j es ws qs out inside other own =
      ap (λ xs. flatten (of_fd fd (fifo.items out)) ++ encode_all xs) same
    where
      same : of_fd fd (backlog fifo w ws (put_all cf i es qs)) ≡ of_fd fd (backlog fifo w ws qs)
      same = elim (ℕ_discrete i w) [
        | no apart ↦ ap (of_fd fd) (backlog-put_all_ne fifo i w es ws qs apart)
        | yes e ↦
            let inside' : w < length qs = omega arith in
            rw e (
              ap (of_fd fd) (backlog-put_all fifo w es ws qs inside')
              ∙ of_fd-append fd (backlog fifo w ws qs) es
              ∙ ap (λ xs. of_fd fd (backlog fifo w ws qs) ++ xs) (of_fd-others fd j es other own)
              ∙ append-nil (of_fd fd (backlog fifo w ws qs)))
      ]

  module _ (o : ByteOrder) (i : ℕ) (qe : QueueEle) (ws : List Phase) (qs : List cf.Queue)
      (out : cf.Queue) (hw : get_elem? ws i ≡ some (holding qe)) where
    abbrev ws' : List Phase
    ws' = adjust i (λ _. notifying) ws

    abbrev queued : List QueueEle
    queued = fifo.items out

    answer-fd : (answer o qe).fd ≡ qe.fd
    answer-fd = unfold answer in refl

    answered :
        qe.fd ≡ fd
        → flatten (of_fd fd (fifo.items (cf.put out (answer o qe))))
          ≡ flatten (of_fd fd queued) ++ encode qe.payload
    answered own =
        ap (λ xs. flatten (of_fd fd xs)) (fifo.items-put out (answer o qe))
        ∙ ap flatten (of_fd-append fd queued (answer o qe ∷ []))
        ∙ flatten-append (of_fd fd queued) (of_fd fd (answer o qe ∷ []))
        ∙ ap (λ xs. flatten (of_fd fd queued) ++ flatten xs)
            (of_fd-hit fd (answer o qe) [] (answer-fd ∙ own)
              ∙ ap₂ (λ x xs. x ∷ xs) (answer-encode o qe) (of_fd-nil fd))
        ∙ ap (λ bs. flatten (of_fd fd queued) ++ bs) (append-nil (encode qe.payload))

    put-own :
        qe.fd ≡ fd
        → i ≡ w
        → in_flight fifo fd w ws' qs (cf.put out (answer o qe)) ≡ in_flight fifo fd w ws qs out
    unfolding in_flight
    put-own own here =
        let hw' : get_elem? ws w ≡ some (holding qe) = rw here at hw in
        let rest = backlog fifo w (adjust w (λ _. notifying) ws) qs in
        let first : of_fd fd (backlog fifo w ws qs) ≡ qe.payload ∷ of_fd fd rest =
          ap (of_fd fd) (backlog-put fifo w qe ws qs hw') ∙ of_fd-hit fd qe rest own in
        let all : encode_all (of_fd fd (backlog fifo w ws qs))
            ≡ encode qe.payload ++ encode_all (of_fd fd rest) =
          ap encode_all first ∙ unfold encode_all in refl in
        rw here (
          ap (λ bs. bs ++ encode_all (of_fd fd rest)) (answered own)
          ∙ append_assoc (flatten (of_fd fd queued)) (encode qe.payload)
              (encode_all (of_fd fd rest))
          ∙ ap (λ bs. flatten (of_fd fd queued) ++ bs) (sym all))

    unanswered : qe.fd ≢ fd → of_fd fd (fifo.items (cf.put out (answer o qe))) ≡ of_fd fd queued
    unanswered other =
        ap (of_fd fd) (fifo.items-put out (answer o qe))
        ∙ of_fd-append fd queued (answer o qe ∷ [])
        ∙ ap (λ xs. of_fd fd queued ++ xs)
            (of_fd-miss fd (answer o qe) [] (λ e. other (sym answer-fd ∙ e)) ∙ of_fd-nil fd)
        ∙ append-nil (of_fd fd queued)

    still : qe.fd ≢ fd → of_fd fd (backlog fifo w ws' qs) ≡ of_fd fd (backlog fifo w ws qs)
    still other = elim (ℕ_discrete i w) [
      | no apart ↦ ap (of_fd fd) (backlog-put_ne fifo i w notifying ws qs apart)
      | yes here ↦
          let hw' : get_elem? ws w ≡ some (holding qe) = rw here at hw in
          rw here (sym (ap (of_fd fd) (backlog-put fifo w qe ws qs hw') ∙ of_fd-miss fd qe _ other))
    ]

    -- A message that its worker answers keeps its place on the way.
    pub flight-put :
        (qe.fd ≡ fd → i ≡ w)
        → in_flight fifo fd w ws' qs (cf.put out (answer o qe)) ≡ in_flight fifo fd w ws qs out
    unfolding in_flight
    flight-put here = elim (ℕ_discrete qe.fd fd) [
      | yes own ↦ put-own own (here own)
      | no other ↦ ap₂ (λ xs ys. flatten xs ++ encode_all ys) (unanswered other) (still other)
    ]

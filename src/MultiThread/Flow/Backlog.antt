-- ===== src/MultiThread/Flow/Backlog.antt =====
-- What the steps of the workers of dev_examples/libevent_multithreads do to their backlogs.
use native.Mathlib.Decide.{ℕ_discrete}
use test_code.Prelude.{
  ℕ, zero, suc, ◌<◌, ◌≡◌, refl, sym, ap, ◌∙◌, ◌≢◌, some, List, [], ◌∷◌, ◌++◌, arith, get_elem?,
  length, append_assoc, append-nil, adjust, length-adjust,
}
use test_code.CfQueue.{CfQueue, QueueEle, IsFifo}
use test_code.MultiThread.Server.{Phase, idle, holding, notifying}
use test_code.MultiThread.Server.Slots.{get_elem?-adjust, get_elem?-adjust_ne}
use test_code.MultiThread.Reader.See.{put_all}
use test_code.MultiThread.Flow.{of_fd, held, slot, backlog}

pub of_fd-append :
    (fd : ℕ) (xs ys : List QueueEle) → of_fd fd (xs ++ ys) ≡ of_fd fd xs ++ of_fd fd ys
unfolding of_fd
of_fd-append fd [] ys = refl
of_fd-append fd (x ∷ xs) ys = ground (arith, of_fd-append fd xs ys)

module _ {cf : CfQueue} (fifo : IsFifo cf) where
  pub backlog-get :
      (i j : ℕ) (qe : QueueEle) (c rest : cf.Queue) (ws : List Phase) (qs : List cf.Queue)
      → get_elem? ws i ≡ some idle
      → get_elem? qs i ≡ some c
      → fifo.items c ≡ qe ∷ fifo.items rest
      → backlog fifo j (adjust i (λ _. holding qe) ws) (adjust i (λ _. rest) qs)
        ≡ backlog fifo j ws qs
  unfolding backlog
  backlog-get i j qe c rest ws qs hw hq e = elim (ℕ_discrete i j) [
    | yes same ↦
        let hw' : get_elem? ws j ≡ some idle = rw same at hw in
        let hq' : get_elem? qs j ≡ some c = rw same at hq in
        rw
          (
            same,
            get_elem?-adjust (λ _. holding qe) j ws idle hw',
            get_elem?-adjust (λ _. rest) j qs c hq',
            hw',
            hq',
            e,
          )
          refl
    | no apart ↦
        rw
          (
            get_elem?-adjust_ne (λ _. holding qe) i j ws apart,
            get_elem?-adjust_ne (λ _. rest) i j qs apart,
          )
          refl
  ]

  -- A worker that goes from a phase with the same messages in its hands.
  pub backlog-phase :
      (i j : ℕ) (p p' : Phase) (ws : List Phase) (qs : List cf.Queue)
      → get_elem? ws i ≡ some p
      → held p ≡ held p'
      → backlog fifo j (adjust i (λ _. p') ws) qs ≡ backlog fifo j ws qs
  unfolding backlog
  backlog-phase i j p p' ws qs hw e = elim (ℕ_discrete i j) [
    | yes same ↦
        let hw' : get_elem? ws j ≡ some p = rw same at hw in
        rw (same, get_elem?-adjust (λ _. p') j ws p hw', hw', e) refl
    | no apart ↦ rw (get_elem?-adjust_ne (λ _. p') i j ws apart) refl
  ]

  pub backlog-put :
      (i : ℕ) (qe : QueueEle) (ws : List Phase) (qs : List cf.Queue)
      → get_elem? ws i ≡ some (holding qe)
      → backlog fifo i ws qs ≡ qe ∷ backlog fifo i (adjust i (λ _. notifying) ws) qs
  unfolding backlog
  backlog-put i qe ws qs hw = rw (get_elem?-adjust (λ _. notifying) i ws (holding qe) hw, hw) refl

  pub backlog-put_ne :
      (i j : ℕ) (p' : Phase) (ws : List Phase) (qs : List cf.Queue)
      → i ≢ j
      → backlog fifo j (adjust i (λ _. p') ws) qs ≡ backlog fifo j ws qs
  unfolding backlog
  backlog-put_ne i j p' ws qs apart = rw (get_elem?-adjust_ne (λ _. p') i j ws apart) refl

  items_at : ℕ → List cf.Queue → List QueueEle
  items_at j qs = slot fifo.items (get_elem? qs j)

  items_at-put :
      (i : ℕ) (e : QueueEle) (qs : List cf.Queue)
      → i < length qs
      → items_at i (adjust i (λ c. cf.put c e) qs) ≡ items_at i qs ++ e ∷ []
  unfolding items_at
  items_at-put i e [] h = absurd (omega arith)
  items_at-put zero e (c ∷ qs) h = fifo.items-put c e
  items_at-put (suc i) e (c ∷ qs) h = items_at-put i e qs (omega arith)

  items_at-put_all :
      (i : ℕ) (es : List QueueEle) (qs : List cf.Queue)
      → i < length qs
      → items_at i (put_all cf i es qs) ≡ items_at i qs ++ es
  unfolding put_all
  items_at-put_all i [] qs h = sym (append-nil (items_at i qs))
  items_at-put_all i (e ∷ es) qs h =
      items_at-put_all i es (adjust i (λ c. cf.put c e) qs)
        (omega (arith, length-adjust (λ c. cf.put c e) i qs))
      ∙ ap (λ xs. xs ++ es) (items_at-put i e qs h)
      ∙ append_assoc (items_at i qs) (e ∷ []) es

  items_at-put_all_ne :
      (i j : ℕ) (es : List QueueEle) (qs : List cf.Queue)
      → i ≢ j
      → items_at j (put_all cf i es qs) ≡ items_at j qs
  unfolding put_all items_at
  items_at-put_all_ne i j [] qs apart = refl
  items_at-put_all_ne i j (e ∷ es) qs apart =
      items_at-put_all_ne i j es (adjust i (λ c. cf.put c e) qs) apart
      ∙ ap (slot fifo.items) (get_elem?-adjust_ne (λ c. cf.put c e) i j qs apart)

  pub length-put_all :
      (i : ℕ) (es : List QueueEle) (qs : List cf.Queue) → length (put_all cf i es qs) ≡ length qs
  unfolding put_all
  length-put_all i [] qs = refl
  length-put_all i (e ∷ es) qs =
      length-put_all i es (adjust i (λ c. cf.put c e) qs) ∙ length-adjust (λ c. cf.put c e) i qs

  -- Messages that come in are the last of one worker's backlog.
  pub backlog-put_all :
      (i : ℕ) (es : List QueueEle) (ws : List Phase) (qs : List cf.Queue)
      → i < length qs
      → backlog fifo i ws (put_all cf i es qs) ≡ backlog fifo i ws qs ++ es
  unfolding backlog items_at
  backlog-put_all i es ws qs h =
      ap (λ xs. slot held (get_elem? ws i) ++ xs) (items_at-put_all i es qs h)
      ∙ sym (append_assoc (slot held (get_elem? ws i)) (items_at i qs) es)

  pub backlog-put_all_ne :
      (i j : ℕ) (es : List QueueEle) (ws : List Phase) (qs : List cf.Queue)
      → i ≢ j
      → backlog fifo j ws (put_all cf i es qs) ≡ backlog fifo j ws qs
  unfolding backlog items_at
  backlog-put_all_ne i j es ws qs apart =
      ap (λ xs. slot held (get_elem? ws j) ++ xs) (items_at-put_all_ne i j es qs apart)

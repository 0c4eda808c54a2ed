-- ===== src/CfQueue.antt =====
-- What the multi-threaded server uses of cf::TYPEQueue<QueueEle>::Queue
-- (cppfoundation/cf_concurrency_queue.hpp), which is not in the repository: a parameter of the model,
-- with the behaviour of a concurrent queue as a record of laws.
-- QueueEle is dev_examples/libevent_multithreads/queue_element.hpp.
use test_code.Prelude.{ℕ, ◌≡◌, refl, sym, ap, ap₂, ◌∙◌, List, [], ◌∷◌, ◌++◌, Option, none, some}
use test_code.Wire.{Bytes}

pub record QueueEle : Type 0 where
  pub fd : ℕ
  pub payload : Bytes

pub record CfQueue : Type 1 where
  pub Queue : Type 0
  pub fresh : Queue
  -- `Put(e)`
  pub put : Queue → QueueEle → Queue
  -- `Get()` and `TryGet()` on a queue at rest: `none` where `Get` waits and `TryGet` throws
  -- QueueEmptyException
  pub take_one : Queue → Option (QueueEle × Queue)

-- First in, first out.
pub record IsFifo (cf : CfQueue) : Type 0 where
  pub items : cf.Queue → List QueueEle
  pub items-fresh : items cf.fresh ≡ []
  pub items-put : (c : cf.Queue) (e : QueueEle) → items (cf.put c e) ≡ items c ++ e ∷ []
  pub take_nil : (c : cf.Queue) → items c ≡ [] → cf.take_one c ≡ none
  pub take-cons :
      (c : cf.Queue) (e : QueueEle) (r : List QueueEle)
      → items c ≡ e ∷ r
      → (c' : cf.Queue) × (cf.take_one c ≡ some (e, c')) × (items c' ≡ r)

module _ {cf : CfQueue} (fifo : IsFifo cf) where
  -- What was taken stood in front.
  pub take_one-items :
      (c : cf.Queue) (e : QueueEle) (c' : cf.Queue)
      → cf.take_one c ≡ some (e, c')
      → fifo.items c ≡ e ∷ fifo.items c'
  take_one-items c e c' h = go (fifo.items c) refl
    where
      go : (xs : List QueueEle) → fifo.items c ≡ xs → fifo.items c ≡ e ∷ fifo.items c'
      go [] eq = absurd (let none_left = fifo.take_nil c eq in cc)
      go (x ∷ xs) eq =
          let (c2, taken, left) = fifo.take-cons c x xs eq in
          let same : ◌≡◌ {A = Option (QueueEle × cf.Queue)} (some (x, c2)) (some (e, c')) =
            sym taken ∙ h in
          let first : x ≡ e = cc in
          let second : c2 ≡ c' = cc in
          eq ∙ ap₂ (λ y ys. y ∷ ys) first (sym left ∙ ap fifo.items second)

  pub take_one-none : (c : cf.Queue) → cf.take_one c ≡ none → fifo.items c ≡ []
  take_one-none c h = go (fifo.items c) refl
    where
      go : (xs : List QueueEle) → fifo.items c ≡ xs → fifo.items c ≡ []
      go [] eq = eq
      go (x ∷ xs) eq = let (c2, taken, left) = fifo.take-cons c x xs eq in absurd cc

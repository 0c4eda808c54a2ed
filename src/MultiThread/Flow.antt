-- ===== src/MultiThread/Flow.antt =====
-- The way of a message through dev_examples/libevent_multithreads: from `readcb` into the queue of one
-- worker, through its hands into the output queue, and from there into the output of the session.
pub mod Backlog
pub mod Route
pub mod Keep
pub mod Flight
pub mod Track
pub mod Events
pub mod Arrive
pub mod Order
pub mod Answer
pub mod Rest
pub mod Measure
pub mod Search
pub mod Settle
pub mod End
use test_code.Prelude.{
  ℕ, Option, none, some, List, [], ◌∷◌, ◌++◌, ◌==◌, if◌then◌else◌, get_elem?, flatten,
}
use test_code.Wire.{Bytes}
use test_code.CfQueue.{CfQueue, QueueEle, IsFifo}
use test_code.Framing.{encode_all}
use test_code.MultiThread.Server.{Phase, idle, holding, notifying}

-- The payloads for a descriptor, in order.
unfoldable pub of_fd : ℕ → List QueueEle → List Bytes
of_fd fd [] = []
of_fd fd (e ∷ es) = let rest = of_fd fd es in if e.fd == fd then e.payload ∷ rest else rest

abbrev pub held : Phase → List QueueEle
held idle = []
held (holding qe) = qe ∷ []
held notifying = []

abbrev pub slot : {A : Type 0} → (A → List QueueEle) → Option A → List QueueEle
slot f none = []
slot f (some a) = f a

module _ {cf : CfQueue} (fifo : IsFifo cf) where
  -- What a worker has still to answer: the message in its hands, and then its queue.
  unfoldable pub backlog : ℕ → List Phase → List cf.Queue → List QueueEle
  backlog i workers queues = slot held (get_elem? workers i) ++ slot fifo.items (get_elem? queues i)

  -- What will come into the output of a descriptor's session, from the queue of the answers and from
  -- the messages of worker `w`.
  unfoldable pub in_flight : ℕ → ℕ → List Phase → List cf.Queue → cf.Queue → Bytes
  in_flight fd w workers queues output =
      flatten (of_fd fd (fifo.items output)) ++ encode_all (of_fd fd (backlog w workers queues))

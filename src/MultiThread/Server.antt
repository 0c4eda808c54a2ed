-- ===== src/MultiThread/Server.antt =====
-- The threads of dev_examples/libevent_multithreads: the event loop with the callbacks of io_cb.cpp,
-- the workers of thread_worker.cpp, and the queues and pipes of server.cpp between them. An action
-- is one step of one thread; any interleaving of the threads is a list of actions.
pub mod Slots
pub mod Runs
pub mod Wake
use test_code.Prelude.{
  adjust, ℕ, ◌+◌, ◌%◌, ◌^◌, Option, none, some, List, [], ◌∷◌, ◌++◌, ltb, if◌then◌else◌, length,
  get_elem?, replicate,
}
use test_code.Prelude.Map.{lookup, insert, erase}
use test_code.Wire.{Bytes, ByteOrder, store_u32, htonl}
use test_code.Libevent.{Libevent}
use test_code.CfQueue.{CfQueue, QueueEle}
use test_code.MultiThread.Reader.{Session, new_session, Called, returned, crashed, readcb}

-- Where a worker stands in its loop: before `Get`, between `Get` and `Put`, before `write`.
pub data Phase : Type 0 where
  idle : Phase
  holding : QueueEle → Phase
  notifying : Phase

-- The event loop waits for events, or is in the loop of `readcbNotify`.
pub data MainThread : Type 0 where
  dispatching delivering : MainThread

-- A pipe is the number of bytes written to it that no call of `readcbNotify` has answered.
pub record State (ev : Libevent) (cf : CfQueue) : Type 0 where
  pub sessions : List (ℕ × Session ev)
  pub queues_input : List cf.Queue
  pub queue_output : cf.Queue
  pub workers : List Phase
  pub pipes : List ℕ
  pub main_thread : MainThread

-- An action leads to a state, or the thread cannot take it here, or the process fails: `readcb` goes
-- through a null pointer, or its loop does not end within the fuel.
pub data Result (ev : Libevent) (cf : CfQueue) : Type 0 where
  went : State ev cf → Result ev cf
  disabled failed : Result ev cf

-- The objects that `main` makes before the threads start.
unfoldable pub start : {ev : Libevent} {cf : CfQueue} → ℕ → State ev cf
start {ev} {cf} threads_cnt = record {
  sessions = [];
  queues_input = replicate threads_cnt cf.fresh;
  queue_output = cf.fresh;
  workers = replicate threads_cnt idle;
  pipes = replicate threads_cnt 0;
  main_thread = dispatching;
}

pub data Action : Type 0 where
  -- the event loop
  accepting : Option ℕ → Action
  arriving : ℕ → Bytes → Action
  failing : ℕ → Action
  notified : ℕ → Action
  deliver : Action
  -- the worker with that index
  getting : ℕ → Action
  putting : ℕ → Action
  writing : ℕ → Action

abbrev pub fd_setsize : ℕ
fd_setsize = 1024

-- `qeOutput`: the message behind its length in network order, for the same descriptor.
unfoldable pub answer : ByteOrder → QueueEle → QueueEle
answer o qe = record qe {
  payload = store_u32 o (htonl o (length qe.payload % 2 ^ 32)) ++ qe.payload;
}

-- `sessions->insert` keeps an entry that is there already.
unfoldable pub insert_new :
    {ev : Libevent} → ℕ → Session ev → List (ℕ × Session ev) → List (ℕ × Session ev)
insert_new fd si sessions = elim (lookup fd sessions) [
  | none ↦ insert fd si sessions
  | some old ↦ sessions
]

unfoldable pub acceptcb : {ev : Libevent} → Option ℕ → List (ℕ × Session ev) → List (ℕ × Session ev)
acceptcb none sessions = sessions
acceptcb {ev} (some fd) sessions =
    if ltb fd_setsize fd
    then sessions
    else insert_new fd (new_session (record { input = ev.empty; output = ev.empty })) sessions

-- Every branch prints, and then the session goes, and its bufferevent with it.
unfoldable pub errorcb : {ev : Libevent} → ℕ → List (ℕ × Session ev) → List (ℕ × Session ev)
errorcb fd sessions = erase fd sessions

-- The body of the loop in `readcbNotify`: an answer goes into the output of its session, or nowhere.
unfoldable pub deliver_to :
    {ev : Libevent} → QueueEle → List (ℕ × Session ev) → List (ℕ × Session ev)
deliver_to {ev} ele sessions = elim (lookup ele.fd sessions) [
  | none ↦ sessions
  | some si ↦
      insert ele.fd
        (record si { bev = record (si.bev) { output = ev.add (si.bev).output ele.payload } })
        sessions
]

module _ {ev : Libevent} {cf : CfQueue} (o : ByteOrder) (threads : ℕ) where
  abbrev pub after_read : State ev cf → Option (Called ev cf) → Result ev cf
  after_read s none = failed
  after_read s (some crashed) = failed
  after_read s (some (returned sessions queues)) =
      went (record s { sessions = sessions; queues_input = queues })

  -- Bytes come in on a descriptor that has a bufferevent, and `readcb` is called.
  unfoldable pub arrive : ℕ → Bytes → State ev cf → Result ev cf
  arrive fd d s = elim (lookup fd s.sessions) [
    | none ↦ went s
    | some si ↦
        let fed = record si { bev = record (si.bev) { input = ev.add (si.bev).input d } } in
        after_read s (readcb ev cf o threads fd (insert fd fed s.sessions) s.queues_input)
  ]

  -- A step of the event loop while it dispatches.
  unfoldable pub dispatch : Action → State ev cf → Result ev cf
  dispatch (accepting fd) s = went (record s { sessions = acceptcb fd s.sessions })
  dispatch (arriving fd d) s = arrive fd d s
  dispatch (failing fd) s = went (record s { sessions = errorcb fd s.sessions })
  dispatch (notified i) s = elim (get_elem? s.pipes i) [
    | none ↦ disabled
    | some n ↦
        if ltb 0 n
        then went (record s { pipes = adjust i (λ _. 0) s.pipes; main_thread = delivering })
        else disabled
  ]
  dispatch a s = disabled

  -- A round of `while(1)` in `readcbNotify`; the exception for the empty queue leaves it.
  unfoldable pub deliver_one : State ev cf → State ev cf
  deliver_one s = elim (cf.take_one s.queue_output) [
    | none ↦ record s { main_thread = dispatching }
    | some (ele, rest) ↦ record s { sessions = deliver_to ele s.sessions; queue_output = rest }
  ]

  abbrev pub on_main : Action → MainThread → State ev cf → Result ev cf
  on_main deliver delivering s = went (deliver_one s)
  on_main a delivering s = disabled
  on_main a dispatching s = dispatch a s

  -- The three steps of a round in `WorkerProc`.
  unfoldable pub get : ℕ → State ev cf → Result ev cf
  get i s = elim (get_elem? s.workers i) [
    | some idle ↦ elim (get_elem? s.queues_input i) [
      | none ↦ disabled
      | some c ↦ elim (cf.take_one c) [
        | none ↦ disabled
        | some (qe, rest) ↦ went (record s {
          queues_input = adjust i (λ _. rest) s.queues_input;
          workers = adjust i (λ _. holding qe) s.workers;
        })
      ]
    ]
    | _ ↦ disabled
  ]

  unfoldable pub put : ℕ → State ev cf → Result ev cf
  put i s = elim (get_elem? s.workers i) [
    | some (holding qe) ↦ went (record s {
      queue_output = cf.put s.queue_output (answer o qe);
      workers = adjust i (λ _. notifying) s.workers;
    })
    | _ ↦ disabled
  ]

  unfoldable pub write : ℕ → State ev cf → Result ev cf
  write i s = elim (get_elem? s.workers i) [
    | some notifying ↦ went (record s {
      pipes = adjust i (λ n. n + 1) s.pipes;
      workers = adjust i (λ _. idle) s.workers;
    })
    | _ ↦ disabled
  ]

  -- `disabled` where the action cannot be taken in this state.
  unfoldable pub act : Action → State ev cf → Result ev cf
  act (getting i) s = get i s
  act (putting i) s = put i s
  act (writing i) s = write i s
  act a s = on_main a s.main_thread s

  unfoldable pub run : State ev cf → List Action → Result ev cf
  run s [] = went s
  run s (a ∷ more) = elim (act a s) [
    | went s' ↦ run s' more
    | disabled ↦ disabled
    | failed ↦ failed
  ]

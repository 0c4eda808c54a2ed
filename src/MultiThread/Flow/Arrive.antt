-- ===== src/MultiThread/Flow/Arrive.antt =====
-- Bytes that come in on one connection of dev_examples/libevent_multithreads, as it sees them.
use test_code.Prelude.{
  ℕ, ◌+◌, ◌%◌, ◌^◌, ◌<◌, ◌≡◌, refl, sym, subst, ap, ap₂, ◌∙◌, some, List, ◌++◌, arith, length,
  length-append, append_assoc, Option-cases, inl, inr, map,
}
use test_code.Prelude.Map.{lookup, insert, lookup-insert_self}
use test_code.Wire.{Bytes, ByteOrder}
use test_code.Libevent.{Libevent, IsByteQueue}
use test_code.CfQueue.{CfQueue, IsFifo}
use test_code.Framing.{Mode, Stop, waiting, refused, decode, encode_all}
use test_code.Framing.Echo.{Seen, open_at, ended, echoed}
use test_code.MultiThread.Reader.{Session, size_limit}
use test_code.MultiThread.Reader.See.{session_mode, put_all, ele, see, handled, target}
use test_code.MultiThread.Reader.Read.{read_all-seen}
use test_code.MultiThread.Reader.Feed.{read_all-Fed}
use test_code.MultiThread.Server.{State, arrive}
use test_code.MultiThread.Server.Runs.{Outcome}
use test_code.MultiThread.Flow.Flight.{flight-put_all}
use test_code.MultiThread.Flow.Route.{Good, fed, arrive-went}
use test_code.MultiThread.Flow.Track.{on_way, seen_at}

session_mode-fed :
    {ev : Libevent} (si : Session ev) (d : Bytes) → session_mode (fed si d) ≡ session_mode si
unfolding session_mode
session_mode-fed si d = refl

module _ {ev : Libevent} {cf : CfQueue} (q : IsByteQueue ev) (fifo : IsFifo cf)
    (threads fd : ℕ) where
  -- The connection is seen as `v`. After a header that is refused nothing is claimed of it.
  abbrev pub Shows : Seen → State ev cf → Type 0
  Shows ended s = Unit
  Shows (open_at m rest out) s = seen_at q fifo threads fd s ≡ some (open_at m rest out)

  module _ (some_threads : 0 < threads) (s : State ev cf)
      (good : Good q fifo threads some_threads s) where
    inside : fd % threads < length s.queues_input
    inside = omega (arith, good.room, some_threads)

    -- What the decoder finds, as it is seen of the session and the queues that `readcb` leaves.
    shown_target :
        (ss : List (ℕ × Session ev)) (r : Session ev) (queues : List cf.Queue) (before : Bytes)
        (k : ℕ) (ms : List Bytes) (st : Stop) (rest : Bytes)
        → q.bytes r.bev.output ≡ before
        → target (session_mode r) (q.bytes r.bev.input) queues
          ≡ handled cf threads fd k s.queues_input
              (record { messages = ms; stop = st; rest = rest })
        → Shows
            (echoed
              (before ++ on_way q fifo threads fd s)
              (record { messages = ms; stop = st; rest = rest }))
            (record s { sessions = insert fd r ss; queues_input = queues })
    shown_target ss r queues before k ms refused rest eo e = tt
    shown_target ss r queues before k ms (waiting m) rest eo e =
        let mode : session_mode r ≡ m = cc in
        let unread : q.bytes r.bev.input ≡ rest = cc in
        let fed_queues : queues ≡ put_all cf (fd % threads) (map (ele fd) ms) s.queues_input = cc in
        rw
          (
            lookup-insert_self fd r ss,
            mode,
            unread,
            fed_queues,
            eo,
            flight-put_all fifo fd (fd % threads) ms s.workers s.queues_input s.queue_output inside,
          )
          (ap (λ bs. some (open_at m rest bs))
            (sym (append_assoc before (on_way q fifo threads fd s) (encode_all ms))))

    -- Bytes that come in on the connection.
    pub arrive-own :
        (o : ByteOrder) (d : Bytes) (m : Mode) (rest out : Bytes)
        → seen_at q fifo threads fd s ≡ some (open_at m rest out)
        → length rest + length d < 2 ^ 31
        → Outcome
            (Shows (echoed out (decode size_limit m (rest ++ d))))
            Unit
            (arrive o threads fd d s)
    unfolding arrive
    arrive-own o d m rest out e fits = elim (Option-cases (lookup fd s.sessions)) [
      | inl missing ↦ absurd (let e' = rw missing at e in cc)
      | inr (si, found) ↦
          let e' : some (
                open_at (session_mode si) (q.bytes si.bev.input)
                  (q.bytes si.bev.output ++ on_way q fifo threads fd s))
              ≡ some (open_at m rest out) =
            rw found at e in
          let mode : session_mode si ≡ m = cc in
          let unread : q.bytes si.bev.input ≡ rest = cc in
          let sent : q.bytes si.bev.output ++ on_way q fifo threads fd s ≡ out = cc in
          let size = good.small fd si found in
          let (r, returns, went_to) = arrive-went q o threads fd d s si found in
          let f = read_all-Fed q o threads fd (fed si d) s.queues_input r size returns in
          let bs : q.bytes (fed si d).bev.input ≡ rest ++ d =
            q.add_lem si.bev.input d ∙ ap (λ x. x ++ d) unread in
          let mode' : session_mode (fed si d) ≡ m = session_mode-fed si d ∙ mode in
          let seen =
            read_all-seen q o threads fd (fed si d) s.queues_input r size
              (omega (arith, ap length bs, length-append rest d)) returns in
          let dd = decode size_limit m (rest ++ d) in
          let seen' : see q r ≡ handled cf threads fd si.body_size s.queues_input dd =
            seen
            ∙ ap₂ (λ x y. handled cf threads fd si.body_size s.queues_input (decode size_limit x y))
                mode' bs in
          rw went_to (
            subst
              (λ x. Shows (echoed x dd) (record s {
                sessions = insert fd r.session (insert fd (fed si d) s.sessions);
                queues_input = r.queues;
              }))
              sent
              (shown_target (insert fd (fed si d) s.sessions) r.session r.queues
                (q.bytes si.bev.output) si.body_size dd.messages dd.stop dd.rest
                (ap q.bytes f.output_eq) seen'))
    ]

-- ===== src/MultiThread/Reader/Feed.antt =====
-- `readcb` of dev_examples/libevent_multithreads/io_cb.cpp on any input: it returns, and what it puts
-- into the queues.
use test_code.Prelude.{
  ℕ, suc, ◌+◌, ◌*◌, ◌-◌, ◌%◌, ◌≤◌, ◌<◌, ◌≡◌, refl, sym, ap, ◌∙◌, some, List, [], ◌∷◌, ◌++◌, arith,
  All, All-append, Bool, true, false, Bool-cases, inl, inr, ltb, ◌==◌, if◌then◌else◌, length,
  length-drop, Control, again, leave, After, repeat_total, repeat_keeps, adjust,
}
use test_code.Wire.{ByteOrder, ntohl, load_u32, fill}
use test_code.Libevent.{Libevent, IsByteQueue}
use test_code.CfQueue.{CfQueue, QueueEle}
use test_code.MultiThread.Reader.{
  Session, size_limit, Reading, read_header, read_body, read_round, read_all, reading,
}
use test_code.MultiThread.Reader.See.{put_all, ele}

pub put_all-snoc :
    (cf : CfQueue) (i : ℕ) (es : List QueueEle) (e : QueueEle) (qs : List cf.Queue)
    → put_all cf i (es ++ e ∷ []) qs ≡ adjust i (λ c. cf.put c e) (put_all cf i es qs)
unfolding put_all
put_all-snoc cf i [] e qs = refl
put_all-snoc cf i (x ∷ es) e qs = put_all-snoc cf i es e (adjust i (λ c. cf.put c x) qs)

rest_len :
    {ev : Libevent} (q : IsByteQueue ev) (b : ev.Evbuffer) (n : ℕ)
    → ev.get_length (ev.remove b n).1 ≡ ev.get_length b - n
rest_len {ev} q b n =
    q.get_length_lem (ev.remove b n).1
    ∙ ap length (q.remove_rest b n)
    ∙ length-drop n (q.bytes b)
    ∙ ap (λ l. l - n) (sym (q.get_length_lem b))

module _ {ev : Libevent} {cf : CfQueue} (q : IsByteQueue ev) (o : ByteOrder) (threads fd : ℕ) where
  weight : Reading ev cf → ℕ
  weight s = 2 * s.input_len + (if s.session.recving_header == 0 then 1 else 0)

  abbrev Below : ℕ → Reading ev cf → Type 0
  Below k s = (s.input_len ≡ ev.get_length s.session.bev.input) × (weight s < k)

  abbrev Ends : Reading ev cf → Type 0
  Ends r = Unit

  header-Below :
      (k : ℕ) (s : Reading ev cf)
      → Below (suc k) s
      → 4 ≤ s.input_len
      → (s.session.recving_header == 0) ≡ false
      → After Below Ends k (read_header ev cf o threads s)
  unfolding read_header weight
  header-Below k s h four mode = let left = rest_len q s.session.bev.input 4 in ground (arith, left)

  body-Below :
      (k : ℕ) (s : Reading ev cf)
      → Below (suc k) s
      → s.session.body_size ≤ s.input_len
      → (s.session.recving_header == 0) ≡ true
      → After Below Ends k (read_body ev cf o threads fd s)
  unfolding read_body weight
  body-Below k s h room mode =
      let left = rest_len q s.session.bev.input s.session.body_size in ground (arith, left)

  round-Below :
      (k : ℕ) (s : Reading ev cf)
      → Below (suc k) s
      → After Below Ends k (read_round ev cf o threads fd s)
  unfolding read_round
  round-Below k s h = ground (arith, header-Below k s h, body-Below k s h)

  -- For any session and any input, also of 2 ^ 31 bytes and more, the loop ends within its fuel.
  pub read_all-some :
      (si : Session ev) (queues : List cf.Queue)
      → (r : Reading ev cf) × (read_all ev cf o threads fd si queues ≡ some r)
  unfolding read_all
  read_all-some si queues =
      let (r, e, _) =
        repeat_total Below Ends (read_round ev cf o threads fd) (λ s h. absurd (omega (arith, h.1)))
          round-Below (suc (suc (2 * ev.get_length si.bev.input))) (reading ev cf si queues)
          (refl, begun) in
      (r, e)
    where
      begun : weight (reading ev cf si queues) < suc (suc (2 * ev.get_length si.bev.input))
      begun = unfold weight in ground arith

  -- Messages of this descriptor have been put into its worker's queue, the size has passed the test,
  -- and the output is what it was.
  pub record Fed (before : List cf.Queue) (out : ev.Evbuffer) (s : Reading ev cf) : Type 0 where
    pub es : List QueueEle
    pub own : All (λ (e : QueueEle). e.fd ≡ fd) es
    pub queues_eq : s.queues ≡ put_all cf (fd % threads) es before
    pub small : s.session.body_size ≤ size_limit
    pub output_eq : s.session.bev.output ≡ out

  module _ (before : List cf.Queue) (out : ev.Evbuffer) (s : Reading ev cf)
      (f : Fed before out s) where
    abbrev Kept : Control (Reading ev cf) (Reading ev cf) → Type 0
    Kept c = After (λ _. Fed before out) (Fed before out) 0 c

    same_queues :
        (si : Session ev) (n : ℕ)
        → si.body_size ≤ size_limit
        → si.bev.output ≡ out
        → Fed before out (record { session = si; queues = s.queues; input_len = n })
    same_queues si n small e = record {
      es = f.es;
      own = f.own;
      queues_eq = f.queues_eq;
      small = small;
      output_eq = e;
    }

    leave_or_again :
        (b : Bool) (s' : Reading ev cf)
        → Fed before out s'
        → Kept (if b then leave s' else again s')
    leave_or_again true s' h = h
    leave_or_again false s' h = h

    header-Fed : Kept (read_header ev cf o threads s)
    unfolding read_header
    header-Fed =
        let (raw, input) = ev.remove s.session.bev.input 4 in
        let size = ntohl o (load_u32 o (fill 4 raw)) in
        elim (Bool-cases (ltb size_limit size)) [
          | inl big ↦ rw big (same_queues _ _ f.small f.output_eq)
          | inr fits ↦
              let small : size ≤ size_limit = ground (arith, fits) in
              rw fits (leave_or_again _ _ (same_queues _ _ small f.output_eq))
        ]

    body-Fed : Kept (read_body ev cf o threads fd s)
    unfolding read_body
    body-Fed =
        let (raw, input) = ev.remove s.session.bev.input s.session.body_size in
        let e = ele fd (fill s.session.body_size raw) in
        leave_or_again _ _ (record {
          es = f.es ++ e ∷ [];
          own = All-append (λ (x : QueueEle). x.fd ≡ fd) f.es (e ∷ []) f.own (refl, tt);
          queues_eq =
              ap (adjust (fd % threads) (λ c. cf.put c e)) f.queues_eq
              ∙ sym (put_all-snoc cf (fd % threads) f.es e before);
          small = f.small;
          output_eq = f.output_eq;
        })

    round-Fed : Kept (read_round ev cf o threads fd s)
    unfolding read_round
    round-Fed = go (ltb 0 s.input_len) (s.session.recving_header == 0) _ _
      where
        go :
            (b c d e : Bool)
            → Kept (
                if b
                then if c
                  then if d then read_body ev cf o threads fd s else leave s
                  else if e
                  then read_header ev cf o threads s
                  else leave s
                else leave s)
        go true true true e = body-Fed
        go true true false e = f
        go true false d true = header-Fed
        go true false d false = f
        go false c d e = f

  pub read_all-Fed :
      (si : Session ev) (queues : List cf.Queue) (r : Reading ev cf)
      → si.body_size ≤ size_limit
      → read_all ev cf o threads fd si queues ≡ some r
      → Fed queues si.bev.output r
  unfolding read_all
  read_all-Fed si queues r small e =
      repeat_keeps (Fed queues si.bev.output) (Fed queues si.bev.output)
        (read_round ev cf o threads fd) (round-Fed queues si.bev.output)
        (suc (suc (2 * ev.get_length si.bev.input))) (reading ev cf si queues) r
        (record {
          es = [];
          own = tt;
          queues_eq = unfold put_all in refl;
          small = small;
          output_eq = refl;
        })
        e

-- ===== src/PerfLibevent/Total.antt =====
-- dev_examples/perf_libevent/server.cpp: every callback returns, and what ends the process.
use test_code.Prelude.{ℕ, ◌≡◌, refl, Option, none, some, List, ◌++◌, Option-cases, inl, inr}
use test_code.Prelude.Map.{lookup}
use test_code.Wire.{Bytes, ByteOrder}
use test_code.Libevent.{Libevent, Channel, IsByteQueue}
use test_code.Framing.{Stop, waiting, refused, decode}
use test_code.Framing.Echo.{ended, echoed, advance}
use test_code.PerfLibevent.{
  max_size, Server, Event, accepting, arriving, failing, Process, alive, dead, step, arrive,
}
use test_code.PerfLibevent.Mode.{mode_of}
use test_code.PerfLibevent.Run.{AllSmall, Shows, shown, arrive-found}
use test_code.PerfLibevent.Frame.{do_accept-SmallAt, errorcb-SmallAt}

module _ {ev : Libevent} (q : IsByteQueue ev) where
  -- The connection on a descriptor, if any, is refused when the bytes have come in.
  abbrev pub Refuses : Server ev → Event → Type 0
  Refuses s (arriving fd d) =
      (c : Channel ev) × (lookup fd s.channels ≡ some c)
      × ((decode max_size (mode_of s.globals fd) (q.bytes c.input ++ d)).stop ≡ refused)
  Refuses s (accepting fd) = ⊥
  Refuses s (failing fd flags err) = ⊥

  -- The step has returned; it ends the process only by a refusal.
  abbrev pub Fine : Server ev → Event → Option (Process ev) → Type 0
  Fine s e none = ⊥
  Fine s e (some dead) = Refuses s e
  Fine s e (some (alive s')) = AllSmall s'

  echoed-ended :
      (out : Bytes) (ps : List Bytes) (st : Stop) (rest : Bytes)
      → echoed out (record { messages = ps; stop = st; rest = rest }) ≡ ended
      → st ≡ refused
  echoed-ended out ps (waiting m) rest e = cc
  echoed-ended out ps refused rest e = refl

  Shows-Fine :
      (s : Server ev) (fd : ℕ) (c : Channel ev) (d : Bytes) (p : Option (Process ev))
      → lookup fd s.channels ≡ some c
      → Shows q fd (advance max_size (shown q fd s c) d) p
      → Fine s (arriving fd d) p
  Shows-Fine s fd c d none found h = h
  Shows-Fine s fd c d (some dead) found h =
      let r = decode max_size (mode_of s.globals fd) (q.bytes c.input ++ d) in
      (c, found, echoed-ended (q.bytes c.output) r.messages r.stop r.rest h)
  Shows-Fine s fd c d (some (alive s')) found h = h.1

  arrive-Fine :
      (o : ByteOrder) (s : Server ev) (fd : ℕ) (d : Bytes)
      → AllSmall s
      → Fine s (arriving fd d) (arrive o fd d s)
  unfolding arrive
  arrive-Fine o s fd d small = elim (Option-cases (lookup fd s.channels)) [
    | inl missing ↦ rw (missing, arrive) small
    | inr (c, found) ↦
        rw (found, arrive) (Shows-Fine s fd c d _ found (arrive-found q fd o s c d small))
  ]

  -- Every event is dealt with, the loop of `readcb` included, and leaves only sizes that have
  -- passed its test; the process ends only where bytes come in on a descriptor whose decoder then
  -- refuses a header.
  pub step-Fine : (o : ByteOrder) (s : Server ev) (e : Event) → AllSmall s → Fine s e (step o s e)
  unfolding step
  step-Fine o s (accepting fd) small = λ k. do_accept-SmallAt s fd k (small k)
  step-Fine o s (arriving fd d) small = arrive-Fine o s fd d small
  step-Fine o s (failing fd flags err) small =
      λ k. errorcb-SmallAt flags err fd k s.globals (small k)

-- ===== src/TcpClient/Count.antt =====
-- The count of events in lite_test/TCP_USER_TIMEOUT_test/tcptest_client.cpp.
use test_code.Prelude.{
  ℕ, ◌-◌, ◌≤◌, ◌≡◌, refl, sym, subst, ap, ◌∙◌, arith, less_1, Bool, true, false, Option, none, some,
  List, [], ◌∷◌, ltb, ◌==◌, if◌then◌else◌, Bool-cases, inl, inr,
}
use test_code.Wire.{Bytes}
use test_code.TcpEcho.{eagain}
use test_code.TcpClient.{
  Client, Recv, got, closed, failed, on_open, send_message, recv_message, Wait, error, timeout,
  ready, handle_ready, handle_all, Result, went, finished, left_main, disabled, handle_wait, serve,
  connected,
}
use test_code.TcpClient.Steps.{recv_opened, recv_gone, recv_closed}

-- The count of events is 1 while the connection is open, and never more.
abbrev pub Counted : Client → Type 0
Counted c = (c.maxevents ≤ 1) × (c.is_open ≡ true → c.maxevents ≡ 1)

abbrev pub CountedAfter : Result → Type 0
CountedAfter (went c) = Counted c
CountedAfter (finished c) = (c.is_open ≡ false) × (c.maxevents ≡ 0)
CountedAfter left_main = Unit
CountedAfter disabled = Unit

on_open-Counted : (r : Recv) (c : Client) → Counted c → Counted ((on_open r c).0)
on_open-Counted (got b d) c h = h
on_open-Counted closed c h = (h.0, λ o. cc)
on_open-Counted failed c h = (h.0, λ o. cc)

recv_message-Counted : (r : Recv) (c : Client) → Counted c → Counted ((recv_message r c).0)
recv_message-Counted r c h = elim (Bool-cases c.is_open) [
  | inl e ↦ subst (λ x. Counted (x.0)) (sym (recv_opened r c e)) (on_open-Counted r c h)
  | inr e ↦ subst Counted (sym (recv_closed r c e)) h
]

either-Counted : (b : Bool) (x y : Client) → Counted x → Counted y → Counted (if b then x else y)
either-Counted true x y h k = h
either-Counted false x y h k = k

send_message-Counted :
    (buf : Bytes) (written : Option ℕ) (c : Client)
    → Counted c
    → Counted (send_message buf written c)
unfolding send_message
send_message-Counted buf none c h = h
send_message-Counted buf (some n) c h = either-Counted c.is_open _ c h h

-- A count less, of a connection that is closed.
fewer :
    (c : Client)
    → c.is_open ≡ false
    → Counted c
    → Counted (record c { maxevents = c.maxevents - 1 })
fewer c e h = (omega (arith, h.0), λ o. cc)

-- Where `recv_message` returns less than 1, the connection is closed.
less_1-closed :
    (r : Recv) (c : Client)
    → less_1 ((recv_message r c).1) ≡ true
    → (recv_message r c).0.is_open ≡ false
unfolding less_1
less_1-closed r c h = elim (Bool-cases c.is_open) [
  | inr e ↦ ap (λ x. x.0.is_open) (recv_gone r c e)
  | inl e ↦
      ap (λ x. x.0.is_open) (recv_opened r c e)
      ∙ opened r (subst (λ x. less_1 (x.1) ≡ true) (recv_opened r c e) h)
]
  where
    opened : (r : Recv) → less_1 ((on_open r c).1) ≡ true → (on_open r c).0.is_open ≡ false
    opened (got b d) h = absurd (ground (arith, h))
    opened closed h = refl
    opened failed h = refl

handle_ready-Counted :
    (r : Recv) (errno : ℕ) (c : Client) → Counted c → Counted (handle_ready r errno c)
unfolding handle_ready
handle_ready-Counted r errno c h =
    let after = recv_message-Counted r c h in
    elim (Bool-cases (less_1 ((recv_message r c).1))) [
      | inr fine ↦ rw fine after
      | inl ended ↦ rw ended (elim (Bool-cases (errno == eagain)) [
        | inl again ↦ rw again after
        | inr other ↦ rw other (fewer ((recv_message r c).0) (less_1-closed r c ended) after)
      ])
    ]

handle_all-Counted : (es : List (Recv × ℕ)) (c : Client) → Counted c → Counted (handle_all es c)
unfolding handle_all
handle_all-Counted [] c h = h
handle_all-Counted ((r, errno) ∷ more) c h =
    handle_all-Counted more (handle_ready r errno c) (handle_ready-Counted r errno c h)

handle_wait-Counted :
    (buf : Bytes) (w : Wait) (c : Client) → Counted c → CountedAfter (handle_wait buf w c)
unfolding handle_wait
handle_wait-Counted buf error c h = tt
handle_wait-Counted buf (timeout written r) c h =
    recv_message-Counted r _ (send_message-Counted buf written c h)
handle_wait-Counted buf (ready es) c h = ground (arith, handle_all-Counted es c h)

ends : (c : Client) → Counted c → c.maxevents ≡ 0 → CountedAfter (finished c)
ends c h e = elim (Bool-cases c.is_open) [
  | inl opened ↦ absurd (omega (arith, h.1 opened))
  | inr gone ↦ (gone, e)
]

serve-CountedAfter :
    (buf : Bytes) (c : Client) (ws : List Wait) → Counted c → CountedAfter (serve buf c ws)
unfolding serve
serve-CountedAfter buf c [] h = elim (Bool-cases (ltb 0 c.maxevents)) [
  | inl more ↦ rw more h
  | inr over ↦ rw over (ends c h (ground (arith, over)))
]
serve-CountedAfter buf c (w ∷ ws) h = elim (Bool-cases (ltb 0 c.maxevents)) [
  | inl more ↦ rw more (
      go (handle_wait buf w c) (handle_wait-Counted buf w c h) (λ c'. serve-CountedAfter buf c' ws))
  | inr over ↦ rw over (ends c h (ground (arith, over)))
]
  where
    go :
        (r : Result)
        → CountedAfter r
        → ((c' : Client) → Counted c' → CountedAfter (serve buf c' ws))
        → CountedAfter (elim r [ went c' ↦ serve buf c' ws | x ↦ x ])
    go (went c') k more = more c' k
    go (finished c') k more = k
    go left_main k more = tt
    go disabled k more = tt

-- However epoll, send and recv go, the count of events is 0 or 1, it is 1 as long as the connection is
-- open, and where the loop ends the connection is closed.
pub serve-Counted : (buf : Bytes) (ws : List Wait) → CountedAfter (serve buf connected ws)
serve-Counted buf ws = serve-CountedAfter buf connected ws (omega arith, λ o. refl)

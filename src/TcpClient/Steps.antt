-- ===== src/TcpClient/Steps.antt =====
-- `send_message` and `recv_message` of lite_test/TCP_USER_TIMEOUT_test/tcptest_client.cpp on a connection
-- that is open and on one that is closed.
use test_code.Prelude.{
  ℕ, ◌≡◌, refl, sym, subst, ap, ◌∙◌, Bool, true, false, Option, none, some, ◌++◌, if◌then◌else◌,
  take,
}
use test_code.Wire.{Bytes}
use test_code.TcpClient.{Client, Recv, got, closed, failed, on_open, send_message, recv_message}

closed_again : (c : Client) → c.is_open ≡ false → record c { is_open = false } ≡ c
closed_again c h = ap (λ b. record c { is_open = b }) (sym h)

-- On either side of a test, with what the test decides left as it is.
pub chosen :
    {A : Type 0} (b d : Bool) (x y : A) → b ≡ d → (if b then x else y) ≡ (if d then x else y)
chosen b d x y e = ap (λ t. if t then x else y) e

pub recv_opened : (r : Recv) (c : Client) → c.is_open ≡ true → recv_message r c ≡ on_open r c
unfolding recv_message
recv_opened r c h = chosen c.is_open true (on_open r c) (on_open failed c) h

pub recv_gone : (r : Recv) (c : Client) → c.is_open ≡ false → recv_message r c ≡ on_open failed c
unfolding recv_message
recv_gone r c h = chosen c.is_open false (on_open r c) (on_open failed c) h

pub recv_closed : (r : Recv) (c : Client) → c.is_open ≡ false → (recv_message r c).0 ≡ c
recv_closed r c h = ap (λ x. x.0) (recv_gone r c h) ∙ closed_again c h

pub send_closed :
    (buf : Bytes) (written : Option ℕ) (c : Client)
    → c.is_open ≡ false
    → send_message buf written c ≡ c
unfolding send_message
send_closed buf none c h = refl
send_closed buf (some n) c h = simp h refl

pub stays_closed :
    (buf : Bytes) (written : Option ℕ) (r : Recv) (c : Client)
    → c.is_open ≡ false
    → (recv_message r (send_message buf written c)).0 ≡ c
stays_closed buf written r c h =
    ap (λ x. (recv_message r x).0) (send_closed buf written c h) ∙ recv_closed r c h

abbrev pub Closing : Recv → Type 0
Closing (got b d) = ⊥
Closing closed = Unit
Closing failed = Unit

pub closes :
    (r : Recv) (c : Client)
    → Closing r
    → c.is_open ≡ true
    → ((recv_message r c).0.is_open ≡ false) × ((recv_message r c).0.maxevents ≡ c.maxevents)
closes r c h e =
    subst (λ x. (x.0.is_open ≡ false) × (x.0.maxevents ≡ c.maxevents)) (sym (recv_opened r c e))
      (go r h)
  where
    go :
        (r : Recv)
        → Closing r
        → ((on_open r c).0.is_open ≡ false) × ((on_open r c).0.maxevents ≡ c.maxevents)
    go (got b d) k = absurd k
    go closed k = (refl, refl)
    go failed k = (refl, refl)

unfoldable pub Alike : Client → Client → Type 0
Alike c x = (x.is_open ≡ c.is_open) × (x.maxevents ≡ c.maxevents)

pub send_message-Alike :
    (buf : Bytes) (written : Option ℕ) (c : Client) → Alike c (send_message buf written c)
unfolding send_message Alike
send_message-Alike buf none c = (refl, refl)
send_message-Alike buf (some n) c = go c.is_open
  where
    go : (b : Bool) → Alike c (if b then record c { sent = c.sent ++ take n buf } else c)
    go true = (refl, refl)
    go false = (refl, refl)

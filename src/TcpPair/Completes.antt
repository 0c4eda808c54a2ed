-- ===== src/TcpPair/Completes.antt =====
-- A client of lite_test/TCP_USER_TIMEOUT_test that waits for its echo gets it.
use test_code.Prelude.{
  ℕ, zero, suc, ◌≤◌, ◌<◌, ◌≡◌, refl, sym, subst, ap, ◌∙◌, true, false, arith, some, [], ◌∷◌, ◌++◌,
  ◌==◌, length, take, drop, length-append, append-nil, take_all,
}
use test_code.Prelude.Map.{lookup, insert, lookup-insert_self}
use test_code.Wire.{Bytes}
use test_code.TcpClient.{Client, got, recv_message}
use test_code.TcpClient.Steps.{recv_opened}
use test_code.TcpEcho
use test_code.TcpEcho.{
  max_buf, Socket, Server, Event, readable, handle_message, serve_client, handle_event,
  handle_events,
}
use test_code.TcpEcho.Echo.{AllSend, all_arrived, arrived}
use test_code.TcpPair.{
  Net, Step, client_receives, server_turn, Reaches, here, then_step, opened, new_socket,
}
use test_code.TcpPair.Echoed.{Printed, recv_message-sent, reached-Printed}

drop_all : (n : ℕ) (xs : Bytes) → length xs ≤ n → drop n xs ≡ []
drop_all zero [] h = refl
drop_all (suc n) [] h = refl
drop_all zero (x ∷ xs) h = absurd (omega arith)
drop_all (suc n) (x ∷ xs) h = drop_all n xs (omega arith)

-- All that has come in is sent back.
handle_message_all :
    (bs d : Bytes)
    → 0 < length d
    → length d ≤ max_buf
    → handle_message (record { incoming = d; sent = bs }) (some (length d))
      ≡ some (record { incoming = []; sent = bs ++ d })
unfolding handle_message
handle_message_all bs d some_bytes h =
    let test : (length d == 0) ≡ false = ground (arith, some_bytes) in
    rw
      (
        handle_message,
        test,
        take_all max_buf d h,
        drop_all max_buf d h,
        take_all (length d) d (omega arith),
      )
      refl

module _ (fd : ℕ) (s : Server) (bs d : Bytes)
    (found : lookup fd s.clients ≡ some (record { incoming = []; sent = bs }))
    (some_bytes : 0 < length d) (fits : length d ≤ max_buf) where
  abbrev burst : Event
  burst = readable fd d (some (length d)) 0

  abbrev after : Server
  after = record s { clients = insert fd (record { incoming = []; sent = bs ++ d }) s.clients }

  handle_event-after : handle_event burst s ≡ TcpEcho.went after
  unfolding handle_event serve_client
  handle_event-after = rw (handle_event, found, handle_message_all bs d some_bytes fits) refl

  handle_events-after : handle_events (burst ∷ []) s ≡ TcpEcho.went after
  unfolding handle_events
  handle_events-after = rw (handle_events, handle_event-after) refl

  burst-AllSend : AllSend fd s (burst ∷ [])
  unfolding AllSend
  burst-AllSend = (
    λ sock own there some_more.
        let same : record { incoming = []; sent = bs } ≡ sock = cc in
        subst (λ t. some (length d) ≡ some (length (take max_buf (t.incoming ++ d)))) same
          (ap (λ t. some (length t)) (sym (take_all max_buf d fits))),
    rw handle_event-after tt,
  )

  all_arrived-burst : all_arrived fd (burst ∷ []) ≡ d
  unfolding all_arrived arrived
  all_arrived-burst =
      let own : (fd == fd) ≡ true = ground arith in rw (all_arrived, arrived, own) (append-nil d)

first_byte : (bs : Bytes) → 0 < length bs → (b : ℕ) × ((rest : Bytes) × (bs ≡ b ∷ rest))
first_byte [] h = absurd (omega (arith, h))
first_byte (b ∷ rest) h = (b, (rest, refl))

recv_message-printed :
    (c : Client) (b : ℕ) (rest : Bytes)
    → c.is_open ≡ true
    → (recv_message (got b rest) c).0.printed ≡ c.printed ++ b ∷ rest
recv_message-printed c b rest h = ap (λ x. x.0.printed) (recv_opened (got b rest) c h)

-- After any turns of the two from the time that the server has accepted the client, in which its
-- send takes all that it is given for this client, a client on an open connection that has got
-- into the recv behind a timeout, with 1 to 1024 bytes on their way to the server and nothing that
-- waits there, can go on to a state behind that recv where it has printed the echo of all that it
-- has sent, and has sent nothing more; if what is on its way to either of them is no more than
-- 2048 bytes.
pub echo_completes :
    (buf : Bytes) (fd : ℕ) (s : Server) (n : Net) (bs : Bytes)
    → lookup fd s.clients ≡ some new_socket
    → Reaches buf fd (opened s) n
    → n.in_recv ≡ true
    → n.client.is_open ≡ true
    → lookup fd n.server.clients ≡ some (record { incoming = []; sent = bs })
    → 0 < length n.up
    → length n.up ≤ max_buf
    → length (n.down ++ n.up) ≤ 2048
    → (m : Net) × Reaches buf fd n m
      × (m.in_recv ≡ false)
      × (m.client.sent ≡ n.client.sent)
      × (m.client.printed ≡ n.client.sent)
echo_completes buf fd s n bs accepted run inside is_open found some_up fits taken =
    let server = after fd n.server bs n.up found some_up fits in
    let served : Net = record n { server = server; up = []; down = n.down ++ n.up } in
    let (b, (rest, all)) =
      first_byte (n.down ++ n.up) (omega (arith, some_up, length-append n.down n.up)) in
    let c = (recv_message (got b rest) n.client).0 in
    let m : Net = record served { client = c; in_recv = false; down = [] } in
    let stored =
      lookup-insert_self fd (record { incoming = []; sent = bs ++ n.up }) n.server.clients in
    let serves : Step buf fd n served =
      server_turn n (burst fd n.server bs n.up found some_up fits ∷ []) server
        (record { incoming = []; sent = bs }) (record { incoming = []; sent = bs ++ n.up }) n.up []
        (handle_events-after fd n.server bs n.up found some_up fits)
        (burst-AllSend fd n.server bs n.up found some_up fits) found stored
        (sym (
          append-nil (all_arrived fd (burst fd n.server bs n.up found some_up fits ∷ []))
          ∙ all_arrived-burst fd n.server bs n.up found some_up fits))
        refl in
    let receives : Step buf fd served m =
      client_receives served (got b rest) (b ∷ rest) [] inside
        (recv_message-printed n.client b rest is_open) (all ∙ sym (append-nil (b ∷ rest))) in
    let on : Reaches buf fd n m =
      then_step n served m (then_step n n served (here n) serves) receives in
    let whole = then_step (opened s) served m (then_step (opened s) n served run serves) receives in
    let same_sent = recv_message-sent (got b rest) n.client in
    let now_printed = subst (Printed m) stored (reached-Printed fd buf s m accepted whole) in
    (m, on, refl, same_sent, sym (append-nil c.printed) ∙ now_printed ∙ same_sent)

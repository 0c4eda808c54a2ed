-- ===== src/TcpPair/Echoed.antt =====
-- What the client of lite_test/TCP_USER_TIMEOUT_test prints of what it has sent.
use test_code.Prelude.{
  ℕ, ◌≡◌, refl, sym, subst, ap, ◌∙◌, Bool, true, false, arith, if◌then◌else◌, Option, none, some,
  List, [], ◌∷◌, ltb, leb, length, ◌++◌, append_assoc,
}
use test_code.Prelude.Map.{lookup}
use test_code.Wire.{Bytes}
use test_code.TcpClient
use test_code.TcpClient.{
  Client, Recv, got, closed, failed, ready, send_message, recv_message, handle_ready, handle_all,
  handle_wait,
}
use test_code.TcpEcho.{Socket, Server}
use test_code.TcpEcho.Echo.{all_arrived, handle_events-echoed}
use test_code.TcpPair.{
  Net, Step, client_sends, client_receives, client_reads, server_turn, server_closes, Reaches, here,
  then_step, opened, new_socket,
}

-- With what the server has of the connection: what has been printed and is on its way back is what the
-- server has sent, and with what it has and what is on its way to it, that is what the client has sent.
abbrev pub Conserved : Net → Option Socket → Type 0
Conserved n none = (lost : Bytes) × ((n.client.printed ++ n.down) ++ lost ≡ n.client.sent)
Conserved n (some sock) =
    (n.client.printed ++ n.down ≡ sock.sent)
    × ((sock.sent ++ sock.incoming) ++ n.up ≡ n.client.sent)

-- What the client has sent is what it has printed and then the rest, which is known as long as the
-- server watches the connection.
abbrev pub Printed : Net → Option Socket → Type 0
Printed n none = (rest : Bytes) × (n.client.printed ++ rest ≡ n.client.sent)
Printed n (some sock) = n.client.printed ++ (n.down ++ (sock.incoming ++ n.up)) ≡ n.client.sent

send_message-printed :
    (buf : Bytes) (written : Option ℕ) (c : Client)
    → (send_message buf written c).printed ≡ c.printed
unfolding send_message
send_message-printed buf none c = refl
send_message-printed buf (some n) c = ground arith

pub recv_message-sent : (r : Recv) (c : Client) → (recv_message r c).0.sent ≡ c.sent
unfolding recv_message
recv_message-sent (got b d) c = ground arith
recv_message-sent closed c = ground arith
recv_message-sent failed c = ground arith

handle_all-sent : (es : List (Recv × ℕ)) (c : Client) → (handle_all es c).sent ≡ c.sent
unfolding handle_all handle_ready
handle_all-sent [] c = refl
handle_all-sent ((r, errno) ∷ es) c =
    handle_all-sent es (handle_ready r errno c) ∙ (ground (arith, recv_message-sent r c))

handle_wait-sent :
    (buf : Bytes) (es : List (Recv × ℕ)) (c c' : Client)
    → handle_wait buf (ready es) c ≡ TcpClient.went c'
    → c'.sent ≡ c.sent
unfolding handle_wait
handle_wait-sent buf es c c' h = go c.is_open (ltb 0 (length es)) (leb (length es) c.maxevents) h
  where
    go :
        (is_open some_events fits : Bool)
        → (if is_open
            then if some_events
              then if fits then TcpClient.went (handle_all es c) else TcpClient.disabled
              else TcpClient.disabled
            else TcpClient.disabled)
          ≡ TcpClient.went c'
        → c'.sent ≡ c.sent
    go true true true ran =
        let same : handle_all es c ≡ c' = cc in ap (λ x. x.sent) (sym same) ∙ handle_all-sent es c
    go true true false ran = absurd cc
    go true false fits ran = absurd cc
    go false some_events fits ran = absurd cc

module _ (fd : ℕ) where
  abbrev On : Net → Type 0
  On n = Conserved n (lookup fd n.server.clients)

  sends-On :
      (n : Net) (c : Client) (fresh : Bytes)
      → c.sent ≡ n.client.sent ++ fresh
      → c.printed ≡ n.client.printed
      → (o : Option Socket) → Conserved n o
      → Conserved (record n { client = c; in_recv = true; up = n.up ++ fresh }) o
  sends-On n c fresh sends prints none (lost, h) = (
    lost ++ fresh,
    rw (prints, sends)
        (sym (append_assoc (n.client.printed ++ n.down) lost fresh) ∙ ap (λ x. x ++ fresh) h),
  )
  sends-On n c fresh sends prints (some sock) (back, all) = (
    ap (λ x. x ++ n.down) prints ∙ back,
    rw sends
        (sym (append_assoc (sock.sent ++ sock.incoming) n.up fresh) ∙ ap (λ x. x ++ fresh) all),
  )

  reads-On :
      (n : Net) (c : Client) (piece rest : Bytes) (waits : Bool)
      → c.sent ≡ n.client.sent
      → c.printed ≡ n.client.printed ++ piece
      → n.down ≡ piece ++ rest
      → (o : Option Socket) → Conserved n o
      → Conserved (record n { client = c; in_recv = waits; down = rest }) o
  reads-On n c piece rest waits sends prints takes o h = go o h
    where
      same_way : c.printed ++ rest ≡ n.client.printed ++ n.down
      same_way =
          ap (λ x. x ++ rest) prints
          ∙ append_assoc n.client.printed piece rest
          ∙ ap (λ x. n.client.printed ++ x) (sym takes)

      go :
          (o : Option Socket)
          → Conserved n o
          → Conserved (record n { client = c; in_recv = waits; down = rest }) o
      go none (lost, h) = (lost, ap (λ x. x ++ lost) same_way ∙ h ∙ sym sends)
      go (some sock) (back, all) = (same_way ∙ back, all ∙ sym sends)

  turn-On : (buf : Bytes) (n m : Net) → On n → Step buf fd n m → On m
  turn-On buf _ _ h (client_sends n written fresh outside open_loop sends) =
      sends-On n (send_message buf written n.client) fresh sends
        (send_message-printed buf written n.client) (lookup fd n.server.clients) h
  turn-On buf _ _ h (client_receives n r piece rest inside prints takes) =
      reads-On n (recv_message r n.client).0 piece rest false (recv_message-sent r n.client) prints
        takes (lookup fd n.server.clients) h
  turn-On buf _ _ h (client_reads n es c piece rest outside open_loop ran prints takes) =
      reads-On n c piece rest n.in_recv (handle_wait-sent buf es n.client c ran) prints takes
        (lookup fd n.server.clients) h
  turn-On buf _ _ h
        (server_turn n es s before after fresh rest ran all_sent found found' arrives sends) =
      let (back, all) = subst (Conserved n) found h in
      let echoed = handle_events-echoed fd es n.server s before after found all_sent ran found' in
      subst (Conserved (record n { server = s; up = rest; down = n.down ++ fresh })) (sym found') (
        sym (append_assoc n.client.printed n.down fresh) ∙ ap (λ x. x ++ fresh) back ∙ sym sends,
        ap (λ x. x ++ rest) echoed
            ∙ append_assoc (before.sent ++ before.incoming) (all_arrived fd es) rest
            ∙ ap (λ x. (before.sent ++ before.incoming) ++ x) (sym arrives)
            ∙ all,
      )
  turn-On buf _ _ h (server_closes n es s before rest ran found gone arrives) =
      let (back, all) = subst (Conserved n) found h in
      subst (Conserved (record n { server = s; up = rest })) (sym gone) (
        before.incoming ++ n.up,
        ap (λ x. x ++ (before.incoming ++ n.up)) back
            ∙ sym (append_assoc before.sent before.incoming n.up)
            ∙ all,
      )

  reached-On : (buf : Bytes) (n m : Net) → On n → Reaches buf fd n m → On m
  reached-On buf _ _ h (here n) = h
  reached-On buf _ _ h (then_step n m l before last) =
      turn-On buf m l (reached-On buf n m h before) last

  printed_watched :
      (n : Net) (sock : Socket)
      → Conserved n (some sock)
      → n.client.printed ++ (n.down ++ (sock.incoming ++ n.up)) ≡ n.client.sent
  printed_watched n sock (back, all) =
      sym (append_assoc n.client.printed n.down (sock.incoming ++ n.up))
      ∙ ap (λ x. x ++ (sock.incoming ++ n.up)) back
      ∙ sym (append_assoc sock.sent sock.incoming n.up)
      ∙ all

  printed_part : (n : Net) (o : Option Socket) → Conserved n o → Printed n o
  printed_part n none (lost, h) =
      (n.down ++ lost, sym (append_assoc n.client.printed n.down lost) ∙ h)
  printed_part n (some sock) h = printed_watched n sock h

  -- From the time that the server has accepted the client, whatever turns the two take and however the
  -- bytes between them are cut, if only the server's send takes all that it is given for this client,
  -- what the client has printed is the first part of what it has sent. As
  -- long as the server watches the connection, the rest is, in this order, on its way back, waiting in
  -- the socket and on its way to the server.
  pub reached-Printed :
      (buf : Bytes) (s : Server) (n : Net)
      → lookup fd s.clients ≡ some new_socket
      → Reaches buf fd (opened s) n
      → Printed n (lookup fd n.server.clients)
  reached-Printed buf s n accepted run =
      let start : On (opened s) = subst (Conserved (opened s)) (sym accepted) (refl, refl) in
      printed_part n (lookup fd n.server.clients) (reached-On buf (opened s) n start run)

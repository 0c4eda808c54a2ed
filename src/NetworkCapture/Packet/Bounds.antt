-- ===== src/NetworkCapture/Packet/Bounds.antt =====
-- Where `got_packet` of dev_examples/network_capture/src/custcap.c reads.
use test_code.Prelude.{
  ℕ, zero, suc, ◌+◌, ◌*◌, ◌%◌, ◌≤◌, ◌<◌, ◌≡◌, refl, Option, some, [], ◌∷◌, arith, ltb, Bool, true,
  false, if◌then◌else◌, get_elem?, drop, length, length-drop,
}
use test_code.Bits.{bit_and, bit_and_0f}
use test_code.Wire.{Bytes, ByteOrder}
use test_code.NetworkCapture.Packet.{
  ◌>>=◌, PktHdr, Protocol, tcp, udp, icmp, ip, unknown, u_char, four, u_short, u_int, tcp_fields,
  dissect_tcp, protocol_of, dissect_protocol, dissect_ip, got_packet,
}

-- A read that stays inside.
abbrev pub Defined : {A : Type 0} → Option A → Type 0
Defined {A} m = (a : A) × (m ≡ some a)

get_elem?-Defined : (p : Bytes) (i : ℕ) → i < length p → Defined (get_elem? p i)
get_elem?-Defined [] i h = absurd (omega arith)
get_elem?-Defined (b ∷ p) zero h = (b, refl)
get_elem?-Defined (b ∷ p) (suc i) h = get_elem?-Defined p i (omega arith)

u_char-Defined : (p : Bytes) (i : ℕ) → i < length p → Defined (u_char p i)
u_char-Defined p i h = let (b, e) = get_elem?-Defined p i h in rw e (b % 256, refl)

>>=-Defined :
    {A B : Type 0} {m : Option A} {f : A → Option B}
    → Defined m
    → ((a : A) → Defined (f a))
    → Defined (m >>= f)
>>=-Defined {f = f} (a, e) h = rw e (h a)

else-Defined :
    {A : Type 0} (b : Bool) (x : A) {m : Option A} → Defined m → Defined (if b then some x else m)
else-Defined true x h = (x, refl)
else-Defined false x h = h

four-Defined : (p : Bytes) (i : ℕ) → i + 3 < length p → Defined (four p i)
unfolding four
four-Defined p i h = >>=-Defined (u_char-Defined p i (omega arith)) λ a.
    >>=-Defined (u_char-Defined p (i + 1) (omega arith)) λ b.
      >>=-Defined (u_char-Defined p (i + 2) (omega arith))
        λ c. >>=-Defined (u_char-Defined p (i + 3) (omega arith)) λ d. (_, refl)

module _ (o : ByteOrder) where
  u_short-Defined : (p : Bytes) (i : ℕ) → i + 1 < length p → Defined (u_short o p i)
  unfolding u_short
  u_short-Defined p i h =
      >>=-Defined (u_char-Defined p i (omega arith))
        λ a. >>=-Defined (u_char-Defined p (i + 1) (omega arith)) λ b. (_, refl)

  u_int-Defined : (p : Bytes) (i : ℕ) → i + 3 < length p → Defined (u_int o p i)
  unfolding u_int
  u_int-Defined p i h = >>=-Defined (four-Defined p i h) λ bs. (_, refl)

  tcp_fields-Defined :
      (ip_header header : Bytes) (size_ip size_tcp : ℕ)
      → 4 ≤ length ip_header
      → 20 ≤ length header
      → Defined (tcp_fields o ip_header header size_ip size_tcp)
  unfolding tcp_fields
  tcp_fields-Defined ip_header header size_ip size_tcp h k =
      >>=-Defined (u_short-Defined header 0 (omega arith)) λ sport.
        >>=-Defined (u_short-Defined header 2 (omega arith)) λ dport.
          >>=-Defined (u_char-Defined header 13 (omega arith)) λ flags.
            >>=-Defined (u_int-Defined header 4 (omega arith)) λ seq.
              >>=-Defined (u_int-Defined header 8 (omega arith)) λ ack_no.
                >>=-Defined (u_short-Defined header 14 (omega arith))
                  λ win. >>=-Defined (u_short-Defined ip_header 2 (omega arith)) λ ip_len. (_, refl)

  dissect_tcp-Defined :
      (ip_header header : Bytes) (size_ip : ℕ)
      → 4 ≤ length ip_header
      → 20 ≤ length header
      → Defined (dissect_tcp o ip_header header size_ip)
  unfolding dissect_tcp
  dissect_tcp-Defined ip_header header size_ip h k =
      >>=-Defined (u_char-Defined header 12 (omega arith))
        λ offx2. else-Defined (ltb _ 20) _ (tcp_fields-Defined ip_header header size_ip _ h k)

  dissect_protocol-Defined :
      (ip_header header : Bytes) (size_ip : ℕ) (p : Protocol)
      → 4 ≤ length ip_header
      → 20 ≤ length header
      → Defined (dissect_protocol o ip_header header size_ip p)
  unfolding dissect_protocol
  dissect_protocol-Defined ip_header header size_ip tcp h k =
      dissect_tcp-Defined ip_header header size_ip h k
  dissect_protocol-Defined ip_header header size_ip udp h k = (_, refl)
  dissect_protocol-Defined ip_header header size_ip icmp h k = (_, refl)
  dissect_protocol-Defined ip_header header size_ip ip h k = (_, refl)
  dissect_protocol-Defined ip_header header size_ip unknown h k = (_, refl)

  dissect_ip-Defined : (packet : Bytes) → 94 ≤ length packet → Defined (dissect_ip o packet)
  unfolding dissect_ip
  dissect_ip-Defined packet h =
      let header_bytes = length-drop 14 packet in
      >>=-Defined (u_char-Defined (drop 14 packet) 0 (omega (arith, header_bytes))) λ vhl.
        let size_ip = bit_and vhl 0x0f * 4 in
        let rest = drop (14 + size_ip) packet in
        let rest_bytes = length-drop (14 + size_ip) packet in
        else-Defined (ltb _ 20) _ (
          >>=-Defined (four-Defined (drop 14 packet) 12 (omega (arith, header_bytes))) λ src.
            >>=-Defined (four-Defined (drop 14 packet) 16 (omega (arith, header_bytes))) λ dst.
              >>=-Defined (u_char-Defined (drop 14 packet) 9 (omega (arith, header_bytes))) λ p.
                >>=-Defined
                  (dissect_protocol-Defined (drop 14 packet) rest size_ip (protocol_of p)
                    (omega (arith, header_bytes)) (omega (arith, rest_bytes, bit_and_0f vhl)))
                  λ more. (_, refl))

  -- Of a packet of which at least 94 bytes are captured, an Ethernet header and the longest IP header
  -- and the 20 bytes behind, `got_packet` reads captured bytes only, whatever they are.
  pub got_packet-Defined :
      (counter : ℕ) (h : PktHdr) (packet : Bytes)
      → 94 ≤ length packet
      → Defined (got_packet o counter h packet)
  unfolding got_packet
  got_packet-Defined counter h packet long =
      >>=-Defined (dissect_ip-Defined packet long) λ more. (_, refl)

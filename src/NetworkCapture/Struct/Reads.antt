-- ===== src/NetworkCapture/Struct/Reads.antt =====
-- The members of the structs of dev_examples/network_capture/src/custcap.c at the offsets at which
-- `got_packet` reads them.
use test_code.Prelude.{
  ap, length-append, minus, ℕ, ◌+◌, ◌*◌, ◌/◌, ◌%◌, ◌^◌, ◌≤◌, ◌<◌, ◌≡◌, refl, some, List, [], ◌∷◌,
  ◌++◌, arith, le→ltb, length,
}
use test_code.Bits.{bit_and}
use test_code.Wire.{Bytes, ByteOrder, little_endian, big_endian, load_u32, store_u32, be32, to_be32}
use test_code.NetworkCapture.Struct.{
  padding, alignment, store_u16, store, memory, SniffEthernet, InAddr, address_bytes, SniffIp,
  SniffTcp, ip_members, tcp_members, ethernet_members,
}
use test_code.NetworkCapture.Packet.{
  dissect_tcp, u_char, Line, four, load_u16, u_short, u_int, ntohs, flag_names, tcp_fields,
  src_port, dst_port, tcp_flags, tcp_seq, tcp_ack, tcp_window, ethernet_size, ip_size, tcp_size,
  payload_size,
}

-- The values fit their members.
abbrev pub IsTcp : SniffTcp → Type 0
IsTcp t =
    (t.th_sport < 2 ^ 16)
    × (t.th_dport < 2 ^ 16)
    × (t.th_seq < 2 ^ 32)
    × (t.th_ack < 2 ^ 32)
    × (t.th_offx2 < 256)
    × (t.th_flags < 256)
    × (t.th_win < 2 ^ 16)

abbrev pub IsAddress : InAddr → Type 0
IsAddress a = (a.byte0 < 256) × (a.byte1 < 256) × (a.byte2 < 256) × (a.byte3 < 256)

abbrev pub IsIp : SniffIp → Type 0
IsIp i =
    (i.ip_vhl < 256)
    × (i.ip_len < 2 ^ 16)
    × (i.ip_p < 256)
    × IsAddress i.ip_src
    × IsAddress i.ip_dst

byte : (n : ℕ) → n < 256 → n % 256 ≡ n
byte n h = omega arith

word : (n : ℕ) → n < 2 ^ 16 → n / 256 % 256 * 256 + n % 256 % 256 ≡ n
word n h = omega arith

long_word :
    (n : ℕ)
    → n < 2 ^ 32
    → n / 2 ^ 24 % 256 % 256 % 256 * 2 ^ 24
        + n / 2 ^ 16 % 256 % 256 % 256 * 2 ^ 16
        + n / 2 ^ 8 % 256 % 256 % 256 * 2 ^ 8
        + n % 256 % 256 % 256
      ≡ n
long_word n h = omega arith

-- The lines for the members of the two headers.
abbrev pub tcp_lines : ByteOrder → SniffIp → SniffTcp → ℕ → ℕ → List Line
tcp_lines o i t size_ip size_tcp =
    src_port (ntohs o t.th_sport)
    ∷ dst_port (ntohs o t.th_dport)
    ∷ tcp_flags t.th_flags (flag_names t.th_flags)
    ∷ tcp_seq t.th_seq
    ∷ tcp_ack t.th_ack
    ∷ tcp_window t.th_win
    ∷ ethernet_size 14
    ∷ ip_size size_ip
    ∷ tcp_size size_tcp
    ∷ payload_size (minus (ntohs o i.ip_len) (size_ip + size_tcp))
    ∷ []

-- What is read at the offsets of the members of the TCP header.
pub tcp_reads :
    (o : ByteOrder) (t : SniffTcp) (rest : Bytes)
    → IsTcp t
    → let header = memory o 0 (tcp_members t) ++ rest in
      (u_short o header 0 ≡ some t.th_sport)
      × (u_short o header 2 ≡ some t.th_dport)
      × (u_int o header 4 ≡ some t.th_seq)
      × (u_int o header 8 ≡ some t.th_ack)
      × (u_char header 12 ≡ some t.th_offx2)
      × (u_char header 13 ≡ some t.th_flags)
      × (u_short o header 14 ≡ some t.th_win)
unfolding memory store store_u16 store_u32 padding alignment u_short u_int four load_u16 load_u32
    be32 to_be32
tcp_reads little_endian t rest (sport, dport, seq, ack, offx2, flags, win) = (
  ap some (word t.th_sport sport),
  ap some (word t.th_dport dport),
  ap some (long_word t.th_seq seq),
  ap some (long_word t.th_ack ack),
  ap some (byte t.th_offx2 offx2),
  ap some (byte t.th_flags flags),
  ap some (word t.th_win win),
)
tcp_reads big_endian t rest (sport, dport, seq, ack, offx2, flags, win) = (
  ap some (word t.th_sport sport),
  ap some (word t.th_dport dport),
  ap some (long_word t.th_seq seq),
  ap some (long_word t.th_ack ack),
  ap some (byte t.th_offx2 offx2),
  ap some (byte t.th_flags flags),
  ap some (word t.th_win win),
)

pub ip_len_at :
    (o : ByteOrder) (i : SniffIp) (more : Bytes)
    → i.ip_len < 2 ^ 16
    → u_short o (memory o 0 (ip_members i) ++ more) 2 ≡ some i.ip_len
unfolding memory store store_u16 padding alignment u_short load_u16
ip_len_at little_endian i more len = ap some (word i.ip_len len)
ip_len_at big_endian i more len = ap some (word i.ip_len len)

tcp_fields-tcp_lines :
    (o : ByteOrder) (i : SniffIp) (t : SniffTcp) (more rest : Bytes) (size_ip size_tcp : ℕ)
    → i.ip_len < 2 ^ 16
    → IsTcp t
    → tcp_fields o
        (memory o 0 (ip_members i) ++ more)
        (memory o 0 (tcp_members t) ++ rest)
        size_ip
        size_tcp
      ≡ some (tcp_lines o i t size_ip size_tcp)
unfolding tcp_fields
tcp_fields-tcp_lines o i t more rest size_ip size_tcp len fits =
    let (sport, dport, seq, ack, offx2, flags, win) = tcp_reads o t rest fits in
    rw (tcp_fields, sport, dport, flags, seq, ack, win, ip_len_at o i more len) refl

-- `TH_OFF(tcp)*4` and `IP_HL(ip)*4`.
abbrev pub tcp_header_size : SniffTcp → ℕ
tcp_header_size t = bit_and t.th_offx2 0xf0 / 2 ^ 4 * 4

abbrev pub ip_header_size : SniffIp → ℕ
ip_header_size i = bit_and i.ip_vhl 0x0f * 4

pub dissect_tcp-tcp_lines :
    (o : ByteOrder) (i : SniffIp) (t : SniffTcp) (more rest : Bytes) (size_ip : ℕ)
    → i.ip_len < 2 ^ 16
    → IsTcp t
    → 20 ≤ tcp_header_size t
    → dissect_tcp o (memory o 0 (ip_members i) ++ more) (memory o 0 (tcp_members t) ++ rest) size_ip
      ≡ some (tcp_lines o i t size_ip (tcp_header_size t))
unfolding dissect_tcp
dissect_tcp-tcp_lines o i t more rest size_ip len fits long =
    let (sport, dport, seq, ack, offx2, flags, win) = tcp_reads o t rest fits in
    rw
      (
        dissect_tcp,
        offx2,
        le→ltb (tcp_header_size t) 20 long,
        tcp_fields-tcp_lines o i t more rest size_ip (tcp_header_size t) len fits,
      )
      refl

four_bytes :
    (a : InAddr)
    → IsAddress a
    → some (a.byte0 % 256 ∷ a.byte1 % 256 ∷ a.byte2 % 256 ∷ a.byte3 % 256 ∷ [])
      ≡ some (address_bytes a)
four_bytes a (first, second, third, last) =
    rw (byte a.byte0 first, byte a.byte1 second, byte a.byte2 third, byte a.byte3 last) refl

pub length-ethernet :
    (o : ByteOrder) (e : SniffEthernet)
    → length e.ether_dhost ≡ 6
    → length e.ether_shost ≡ 6
    → length (memory o 0 (ethernet_members e)) ≡ 14
unfolding memory store store_u16 padding alignment
length-ethernet little_endian e dhost shost = simp length-append (rw (dhost, shost) refl)
length-ethernet big_endian e dhost shost = simp length-append (rw (dhost, shost) refl)

pub length-ip : (o : ByteOrder) (i : SniffIp) → length (memory o 0 (ip_members i)) ≡ 20
unfolding memory store store_u16 padding alignment
length-ip little_endian i = refl
length-ip big_endian i = refl

pub ip_reads :
    (o : ByteOrder) (i : SniffIp) (more : Bytes)
    → IsIp i
    → let header = memory o 0 (ip_members i) ++ more in
      (u_char header 0 ≡ some i.ip_vhl)
      × (four header 12 ≡ some (address_bytes i.ip_src))
      × (four header 16 ≡ some (address_bytes i.ip_dst))
      × (u_char header 9 ≡ some i.ip_p)
unfolding memory store store_u16 padding alignment four
ip_reads little_endian i more (vhl, len, p, src, dst) = (
  rw (byte i.ip_vhl vhl) refl,
  four_bytes i.ip_src src,
  four_bytes i.ip_dst dst,
  rw (byte i.ip_p p) refl,
)
ip_reads big_endian i more (vhl, len, p, src, dst) = (
  rw (byte i.ip_vhl vhl) refl,
  four_bytes i.ip_src src,
  four_bytes i.ip_dst dst,
  rw (byte i.ip_p p) refl,
)

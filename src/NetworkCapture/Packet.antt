-- ===== src/NetworkCapture/Packet.antt =====
-- `got_packet` of dev_examples/network_capture/src/custcap.c: what it prints of a captured packet. A
-- pointer into the packet is the rest of the bytes from there on; a read outside of the captured
-- bytes gives `none`.
pub mod Bounds
pub mod Fields
use test_code.Prelude.{
  ℕ, suc, ◌+◌, ◌-◌, ◌*◌, ◌/◌, ◌%◌, ◌^◌, Bool, Option, none, some, List, [], ◌∷◌, ◌++◌, ltb, ℤ,
  minus, ◌==◌, if◌then◌else◌, get_elem?, drop,
}
use test_code.Bits.{bit_and}
use test_code.Wire.{Bytes, ByteOrder, little_endian, big_endian, load_u32}

infixl 5 ◌>>=◌
abbrev pub ◌>>=◌ : {A B : Type 0} → Option A → (A → Option B) → Option B
none >>= f = none
some a >>= f = f a

-- What the call prints, one line after the other; addresses are their four bytes. The times of the
-- header, which gmtime_r writes out, are left as they are.
pub data Protocol : Type 0 where
  tcp udp icmp ip unknown : Protocol

pub data Flag : Type 0 where
  fin syn rst push ack urg ece cwr : Flag

pub data Line : Type 0 where
  packet_number recved_time packet_size captured_size invalid_ip invalid_tcp : ℕ → Line
  from_address to_address : Bytes → Line
  protocol : Protocol → Line
  src_port dst_port tcp_seq tcp_ack tcp_window ethernet_size ip_size tcp_size : ℕ → Line
  tcp_flags : ℕ → List Flag → Line
  payload_size : ℤ → Line

pub record PktHdr : Type 0 where
  pub ts : ℕ
  pub len : ℕ
  pub caplen : ℕ

abbrev pub size_ethernet : ℕ
size_ethernet = 14

-- An `unsigned char`, four of them, a `u_short` and a `u_int` at an offset.
abbrev pub u_char : Bytes → ℕ → Option ℕ
u_char p i = get_elem? p i >>= λ b. some (b % 256)

unfoldable pub four : Bytes → ℕ → Option Bytes
four p i = do
  a ← u_char p i
  b ← u_char p (i + 1)
  c ← u_char p (i + 2)
  d ← u_char p (i + 3)
  some (a ∷ b ∷ c ∷ d ∷ [])

unfoldable pub load_u16 : ByteOrder → ℕ → ℕ → ℕ
load_u16 little_endian a b = b * 256 + a
load_u16 big_endian a b = a * 256 + b

unfoldable pub u_short : ByteOrder → Bytes → ℕ → Option ℕ
u_short o p i = do a ← u_char p i; b ← u_char p (i + 1); some (load_u16 o a b)

unfoldable pub u_int : ByteOrder → Bytes → ℕ → Option ℕ
u_int o p i = do bs ← four p i; some (load_u32 o bs)

unfoldable pub ntohs : ByteOrder → ℕ → ℕ
ntohs little_endian n = n % 256 * 256 + n / 256 % 256
ntohs big_endian n = n

abbrev flag : ℕ → ℕ → Flag → List Flag
flag flags bit f = if bit_and flags bit == 0 then [] else f ∷ []

unfoldable pub flag_names : ℕ → List Flag
flag_names flags =
    flag flags 0x01 fin
    ++ flag flags 0x02 syn
    ++ flag flags 0x04 rst
    ++ flag flags 0x08 push
    ++ flag flags 0x10 ack
    ++ flag flags 0x20 urg
    ++ flag flags 0x40 ece
    ++ flag flags 0x80 cwr

-- From the TCP header on; `ip_header` and `header` point to the two headers.
unfoldable pub tcp_fields : ByteOrder → Bytes → Bytes → ℕ → ℕ → Option (List Line)
tcp_fields o ip_header header size_ip size_tcp = do
  sport ← u_short o header 0
  dport ← u_short o header 2
  flags ← u_char header 13
  seq ← u_int o header 4
  ack_no ← u_int o header 8
  win ← u_short o header 14
  ip_len ← u_short o ip_header 2
  some (
      src_port (ntohs o sport)
      ∷ dst_port (ntohs o dport)
      ∷ tcp_flags flags (flag_names flags)
      ∷ tcp_seq seq
      ∷ tcp_ack ack_no
      ∷ tcp_window win
      ∷ ethernet_size size_ethernet
      ∷ ip_size size_ip
      ∷ tcp_size size_tcp
      ∷ payload_size (minus (ntohs o ip_len) (size_ip + size_tcp))
      ∷ [])

unfoldable pub dissect_tcp : ByteOrder → Bytes → Bytes → ℕ → Option (List Line)
dissect_tcp o ip_header header size_ip = do
  offx2 ← u_char header 12
  let size_tcp = bit_and offx2 0xf0 / 2 ^ 4 * 4
  if ltb size_tcp 20
      then some (invalid_tcp size_tcp ∷ [])
      else tcp_fields o ip_header header size_ip size_tcp

-- `switch(ip->ip_p)`
unfoldable pub protocol_of : ℕ → Protocol
protocol_of p =
    if p == 6
    then tcp
    else if p == 17
    then udp
    else if p == 1
    then icmp
    else if p == 0
    then ip
    else unknown

unfoldable pub dissect_protocol : ByteOrder → Bytes → Bytes → ℕ → Protocol → Option (List Line)
dissect_protocol o ip_header header size_ip tcp = dissect_tcp o ip_header header size_ip
dissect_protocol o ip_header header size_ip p = some []

unfoldable pub dissect_ip : ByteOrder → Bytes → Option (List Line)
dissect_ip o packet = do
  let ip_header = drop size_ethernet packet
  vhl ← u_char ip_header 0
  let size_ip = bit_and vhl 0x0f * 4
  if ltb size_ip 20 then some (invalid_ip size_ip ∷ []) else do
    src ← four ip_header 12
    dst ← four ip_header 16
    p ← u_char ip_header 9
    more ←
        dissect_protocol o ip_header (drop (size_ethernet + size_ip) packet) size_ip (protocol_of p)
    some (from_address src ∷ to_address dst ∷ protocol (protocol_of p) ∷ more)

-- The lines, and `*counter` after the call.
unfoldable pub got_packet : ByteOrder → ℕ → PktHdr → Bytes → Option (List Line × ℕ)
got_packet o counter pkthdr packet = do
  more ← dissect_ip o packet
  some (
    packet_number counter
        ∷ recved_time pkthdr.ts
        ∷ packet_size pkthdr.len
        ∷ captured_size pkthdr.caplen
        ∷ more,
    counter + 1,
  )

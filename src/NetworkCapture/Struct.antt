-- ===== src/NetworkCapture/Struct.antt =====
-- The structs of dev_examples/network_capture/src/custcap.c that a packet is read through, which are
-- those of example/sniffex.c: the values of their members, and the memory that the members take, each at
-- the next multiple of its alignment.
pub mod Reads
pub mod Members
use test_code.Prelude.{ℕ, ◌+◌, ◌-◌, ◌/◌, ◌%◌, List, [], ◌∷◌, ◌++◌, length, replicate}
use test_code.Wire.{Bytes, ByteOrder, little_endian, big_endian, store_u32}

-- The four bytes of `struct in_addr`.
pub record InAddr : Type 0 where
  pub byte0 : ℕ
  pub byte1 : ℕ
  pub byte2 : ℕ
  pub byte3 : ℕ

abbrev pub address_bytes : InAddr → Bytes
address_bytes a = a.byte0 ∷ a.byte1 ∷ a.byte2 ∷ a.byte3 ∷ []

-- A member with its value.
pub data Member : Type 0 where
  u_char u_short u_int : ℕ → Member
  u_chars : Bytes → Member
  in_addr : InAddr → Member

unfoldable pub alignment : Member → ℕ
alignment (u_char n) = 1
alignment (u_short n) = 2
alignment (u_int n) = 4
alignment (u_chars bs) = 1
alignment (in_addr a) = 4

unfoldable pub store_u16 : ByteOrder → ℕ → Bytes
store_u16 little_endian n = (n % 256) ∷ (n / 256) ∷ []
store_u16 big_endian n = (n / 256) ∷ (n % 256) ∷ []

unfoldable pub store : ByteOrder → Member → Bytes
store o (u_char n) = n ∷ []
store o (u_short n) = store_u16 o n
store o (u_int n) = store_u32 o n
store o (u_chars bs) = bs
store o (in_addr a) = address_bytes a

-- The bytes that are left out in front of a member.
unfoldable pub padding : ℕ → Member → ℕ
padding offset m = (alignment m - offset % alignment m) % alignment m

-- The memory of the members from an offset on.
unfoldable pub memory : ByteOrder → ℕ → List Member → Bytes
memory o offset [] = []
memory o offset (m ∷ ms) =
    let gap = padding offset m in
    replicate gap 0 ++ store o m ++ memory o (offset + gap + length (store o m)) ms

pub record SniffEthernet : Type 0 where
  pub ether_dhost : Bytes
  pub ether_shost : Bytes
  pub ether_type : ℕ

pub record SniffIp : Type 0 where
  pub ip_vhl : ℕ
  pub ip_tos : ℕ
  pub ip_len : ℕ
  pub ip_id : ℕ
  pub ip_off : ℕ
  pub ip_ttl : ℕ
  pub ip_p : ℕ
  pub ip_sum : ℕ
  pub ip_src : InAddr
  pub ip_dst : InAddr

pub record SniffTcp : Type 0 where
  pub th_sport : ℕ
  pub th_dport : ℕ
  pub th_seq : ℕ
  pub th_ack : ℕ
  pub th_offx2 : ℕ
  pub th_flags : ℕ
  pub th_win : ℕ
  pub th_sum : ℕ
  pub th_urp : ℕ

abbrev pub ethernet_members : SniffEthernet → List Member
ethernet_members e = u_chars e.ether_dhost ∷ u_chars e.ether_shost ∷ u_short e.ether_type ∷ []

abbrev pub ip_members : SniffIp → List Member
ip_members i =
    u_char i.ip_vhl
    ∷ u_char i.ip_tos
    ∷ u_short i.ip_len
    ∷ u_short i.ip_id
    ∷ u_short i.ip_off
    ∷ u_char i.ip_ttl
    ∷ u_char i.ip_p
    ∷ u_short i.ip_sum
    ∷ in_addr i.ip_src
    ∷ in_addr i.ip_dst
    ∷ []

abbrev pub tcp_members : SniffTcp → List Member
tcp_members t =
    u_short t.th_sport
    ∷ u_short t.th_dport
    ∷ u_int t.th_seq
    ∷ u_int t.th_ack
    ∷ u_char t.th_offx2
    ∷ u_char t.th_flags
    ∷ u_short t.th_win
    ∷ u_short t.th_sum
    ∷ u_short t.th_urp
    ∷ []

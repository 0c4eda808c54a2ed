-- ===== src/NetworkCapture/Sniffex.antt =====
-- dev_examples/network_capture/example/sniffex.c, the sniffer that custcap.c is made from. Its
-- `print_payload` is, word for word, that of custcap.c; its `got_packet` prints the payload. A read outside of the captured bytes gives `none`.
pub mod Segments
use test_code.Prelude.{
  ℤ, pos, minus, ℕ, suc, ◌+◌, ◌*◌, ◌/◌, ◌^◌, Option, none, some, List, [], ◌∷◌, ◌++◌, map, ltb,
  if◌then◌else◌, drop, length,
}
use test_code.Bits.{bit_and}
use test_code.Wire.{Bytes, ByteOrder}
use test_code.NetworkCapture.Dump
use test_code.NetworkCapture.Dump.{Text}
use test_code.NetworkCapture.Packet.{
  ◌>>=◌, Line, Protocol, tcp, packet_number, invalid_ip, invalid_tcp, from_address, to_address,
  protocol, src_port, dst_port, tcp_flags, tcp_seq, tcp_ack, tcp_window, payload_size,
  size_ethernet, u_char, four, u_short, u_int, ntohs, flag_names, protocol_of,
}

abbrev pub print_payload : Bytes → ℕ → Option Text
print_payload payload len = Dump.print_payload payload len

-- A line, or the line with the size of a payload that is not empty and its dump.
pub data Shown : Type 0 where
  line : Line → Shown
  payload_dump : ℕ → Text → Shown

-- The end of `got_packet`, with `payload` and `size_payload`.
unfoldable pub show_payload : Bytes → ℤ → Option (List Shown)
show_payload payload (pos (suc n)) =
    if ltb (length payload) (suc n)
    then none
    else do text ← print_payload payload (suc n); some (payload_dump (suc n) text ∷ [])
show_payload payload size = some (line (payload_size size) ∷ [])

-- From the TCP header on; `ip_header` and `header` point to the two headers.
unfoldable pub tcp_fields : ByteOrder → Bytes → Bytes → ℕ → ℕ → Option (List Shown)
tcp_fields o ip_header header size_ip size_tcp = do
  sport ← u_short o header 0
  dport ← u_short o header 2
  flags ← u_char header 13
  seq ← u_int o header 4
  ack_no ← u_int o header 8
  win ← u_short o header 14
  ip_len ← u_short o ip_header 2
  shown ← show_payload (drop size_tcp header) (minus (ntohs o ip_len) (size_ip + size_tcp))
  some (
      line (src_port (ntohs o sport))
      ∷ line (dst_port (ntohs o dport))
      ∷ line (tcp_flags flags (flag_names flags))
      ∷ line (tcp_seq seq)
      ∷ line (tcp_ack ack_no)
      ∷ line (tcp_window win)
      ∷ shown)

unfoldable pub dissect_tcp : ByteOrder → Bytes → Bytes → ℕ → Option (List Shown)
dissect_tcp o ip_header header size_ip = do
  offx2 ← u_char header 12
  let size_tcp = bit_and offx2 0xf0 / 2 ^ 4 * 4
  if ltb size_tcp 20
      then some (line (invalid_tcp size_tcp) ∷ [])
      else tcp_fields o ip_header header size_ip size_tcp

unfoldable pub dissect_protocol : ByteOrder → Bytes → Bytes → ℕ → Protocol → Option (List Shown)
dissect_protocol o ip_header header size_ip tcp = dissect_tcp o ip_header header size_ip
dissect_protocol o ip_header header size_ip p = some []

unfoldable pub dissect_ip : ByteOrder → Bytes → Option (List Shown)
dissect_ip o packet = do
  let ip_header = drop size_ethernet packet
  vhl ← u_char ip_header 0
  let size_ip = bit_and vhl 0x0f * 4
  if ltb size_ip 20 then some (line (invalid_ip size_ip) ∷ []) else do
    src ← four ip_header 12
    dst ← four ip_header 16
    p ← u_char ip_header 9
    more ←
        dissect_protocol o ip_header (drop (size_ethernet + size_ip) packet) size_ip (protocol_of p)
    some (line (from_address src) ∷ line (to_address dst) ∷ line (protocol (protocol_of p)) ∷ more)

-- What is printed, and `*counter` after the call.
unfoldable pub got_packet : ByteOrder → ℕ → Bytes → Option (List Shown × ℕ)
got_packet o counter packet = do
  more ← dissect_ip o packet
  some (line (packet_number counter) ∷ more, counter + 1)

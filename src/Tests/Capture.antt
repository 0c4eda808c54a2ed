-- ===== src/Tests/Capture.antt =====
-- dev_examples/network_capture/src/custcap.c on concrete packets.
use test_code.Prelude.{◌≡◌, refl, some, [], ◌∷◌, ◌++◌, length, drop, replicate, arith}
use test_code.Wire.{Bytes, big_endian, little_endian}
use test_code.NetworkCapture.Dump.{
  print_hex_ascii_line, print_payload, ascii_part, columns, hex_part, hex_byte, hex_digit,
  five_digits, decimal,
}
use test_code.NetworkCapture.Dump.Line.{print_hex_ascii_line-column}
use test_code.NetworkCapture.Dump.Rows.{rows, print_payload-rows}
use test_code.NetworkCapture.Packet.{
  PktHdr, got_packet, packet_number, recved_time, packet_size, captured_size,
}
use test_code.NetworkCapture.Packet.Bounds.{Defined, got_packet-Defined}
use test_code.NetworkCapture.Packet.Fields.{Segment, IsSegment, packet, ip_lines, got_packet-packet}

-- The bytes of the comment in custcap.c; the code prints one more space in front of the last column
-- than the comment has.
abbrev request : Bytes
request =
    0x47 ∷ 0x45 ∷ 0x54 ∷ 0x20 ∷ 0x2f ∷ 0x20 ∷ 0x48 ∷ 0x54 ∷ 0x54 ∷ 0x50 ∷ 0x2f ∷ 0x31 ∷ 0x2e ∷ 0x31
    ∷ 0x0d ∷ 0x0a ∷ []

request_line : print_hex_ascii_line request 16 0 ≡ (
    b'0' ∷ b'0' ∷ b'0' ∷ b'0' ∷ b'0' ∷ b' ' ∷ b' ' ∷ b' ' ∷ b'4' ∷ b'7' ∷ b' ' ∷ b'4' ∷ b'5' ∷ b' '
    ∷ b'5' ∷ b'4' ∷ b' ' ∷ b'2' ∷ b'0' ∷ b' ' ∷ b'2' ∷ b'f' ∷ b' ' ∷ b'2' ∷ b'0' ∷ b' ' ∷ b'4'
    ∷ b'8' ∷ b' ' ∷ b'5' ∷ b'4' ∷ b' ' ∷ b' ' ∷ b'5' ∷ b'4' ∷ b' ' ∷ b'5' ∷ b'0' ∷ b' ' ∷ b'2'
    ∷ b'f' ∷ b' ' ∷ b'3' ∷ b'1' ∷ b' ' ∷ b'2' ∷ b'e' ∷ b' ' ∷ b'3' ∷ b'1' ∷ b' ' ∷ b'0' ∷ b'd'
    ∷ b' ' ∷ b'0' ∷ b'a' ∷ b' ' ∷ b' ' ∷ b' ' ∷ b' ' ∷ b'G' ∷ b'E' ∷ b'T' ∷ b' ' ∷ b'/' ∷ b' '
    ∷ b'H' ∷ b'T' ∷ b'T' ∷ b'P' ∷ b'/' ∷ b'1' ∷ b'.' ∷ b'1' ∷ b'.' ∷ b'.' ∷ 10 ∷ [])
unfolding print_hex_ascii_line columns ascii_part hex_part hex_byte hex_digit five_digits decimal
request_line = refl

print_hex_ascii_line-column_example :
    (drop 60 (print_hex_ascii_line (0x41 ∷ 0 ∷ []) 2 16) ≡ ascii_part 2 (0x41 ∷ 0 ∷ []) ++ 10 ∷ [])
    × (length (print_hex_ascii_line (0x41 ∷ 0 ∷ []) 2 16) ≡ 63)
print_hex_ascii_line-column_example =
    print_hex_ascii_line-column (0x41 ∷ 0 ∷ []) 2 16 (omega arith) (omega arith)

print_payload-rows_example :
    print_payload (replicate 40 0x61) 40 ≡ some (rows (replicate 40 0x61) 40 0 3)
print_payload-rows_example = print_payload-rows (replicate 40 0x61) 40

abbrev pub header : PktHdr
header = record { ts = 5; len = 94; caplen = 94 }

got_packet-Defined_example : Defined (got_packet big_endian 0 header (replicate 94 0x45))
got_packet-Defined_example =
    got_packet-Defined big_endian 0 header (replicate 94 0x45) (omega arith)

abbrev pub segment : Segment
segment = record {
  ethernet = replicate 14 0;
  hl = 6;
  tos = 0;
  id0 = 1;
  id1 = 2;
  off0 = 64;
  off1 = 0;
  ttl = 64;
  sum0 = 0;
  sum1 = 0;
  src0 = 192;
  src1 = 168;
  src2 = 17;
  src3 = 151;
  dst0 = 10;
  dst1 = 0;
  dst2 = 0;
  dst3 = 1;
  ip_options = replicate 4 1;
  sport = 18600;
  dport = 80;
  seq0 = 0;
  seq1 = 0;
  seq2 = 1;
  seq3 = 2;
  ack0 = 0;
  ack1 = 0;
  ack2 = 0;
  ack3 = 9;
  doff = 5;
  flags = 0x18;
  win0 = 1;
  win1 = 0;
  check0 = 0;
  check1 = 0;
  urg0 = 0;
  urg1 = 0;
  tcp_options = [];
  payload = 7 ∷ 8 ∷ 9 ∷ [];
}

pub segment-IsSegment : IsSegment segment
segment-IsSegment = record {
  ethernet_len = refl;
  hl_range = omega arith;
  doff_range = omega arith;
  ip_options_len = refl;
  tcp_options_len = refl;
  total_range = omega arith;
  sport_range = omega arith;
  dport_range = omega arith;
}

got_packet-packet_example :
    got_packet little_endian 3 header (packet segment)
    ≡ some (
      packet_number 3
          ∷ recved_time 5
          ∷ packet_size 94
          ∷ captured_size 94
          ∷ ip_lines little_endian segment segment-IsSegment,
      4,
    )
got_packet-packet_example = got_packet-packet little_endian segment segment-IsSegment 3 header

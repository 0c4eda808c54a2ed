-- ===== src/Tests/Sniff.antt =====
-- dev_examples/network_capture/example/sniffex.c and cap.c on concrete packets, and a dump that is read
-- back.
use test_code.Prelude.{
  ◌+◌, ◌≡◌, refl, true, some, none, [], ◌∷◌, take, replicate, map, arith, leb, if◌then◌else◌,
}
use test_code.Wire.{Bytes, big_endian}
use test_code.NetworkCapture.Dump.{Text, print_payload, hex_digit, hex_byte}
use test_code.NetworkCapture.Dump.Readback.{read_rows, unsigned_chars, print_payload-readback}
use test_code.NetworkCapture.Packet.{PktHdr, packet_number}
use test_code.NetworkCapture.Packet.Fields.{packet}
use test_code.NetworkCapture.Cap.{hex_padded, cell, dump, process_packet}
use test_code.NetworkCapture.Cap.Layout.{lay, process_packet-lay, fold_byte, process_packet-fold}
use test_code.NetworkCapture.Sniffex
use test_code.NetworkCapture.Sniffex.{line}
use test_code.NetworkCapture.Sniffex.Segments.{ip_lines, got_packet-shown}
use test_code.NetworkCapture.Startup.{Pcap, custcap_main, sniffex_main, eth0, port_18600}
use test_code.NetworkCapture.Startup.Checks.{Checked, mains-Checked}
use test_code.Tests.Capture.{segment, segment-IsSegment}

got_packet-shown_example :
    Sniffex.got_packet big_endian 0 (packet segment)
    ≡ some (line (packet_number 0) ∷ ip_lines big_endian segment segment-IsSegment, 1)
got_packet-shown_example = got_packet-shown big_endian segment segment-IsSegment 0

print_payload-readback_example :
    (t : Text) × (print_payload (replicate 20 300) 18 ≡ some t)
    × (read_rows 2 18 t ≡ unsigned_chars (take 18 (replicate 20 300)))
print_payload-readback_example =
    print_payload-readback (replicate 20 300) 18 (omega arith) (omega arith)

abbrev short : PktHdr
short = record { ts = 5; len = 3; caplen = 3 }

-- `Hi` and a new line.
abbrev hi : Bytes
hi = 0x48 ∷ 0x69 ∷ 0x0a ∷ []

hi_printed :
    process_packet 0 short hi
    ≡ some (
      record {
        count = 1;
        size = 3;
        payload = b'4' ∷ b'8' ∷ b' ' ∷ b' ' ∷ b'i' ∷ b' ' ∷ b' ' ∷ b'a' ∷ b' ' ∷ 10 ∷ [];
      },
      1,
    )
unfolding process_packet dump cell hex_padded hex_byte hex_digit
hi_printed = refl

process_packet-lay_example : process_packet 0 short hi ≡ (
    if leb 3 3
    then some (record { count = 0 + 1; size = 3; payload = lay 16 (take 3 hi) }, 0 + 1)
    else none)
process_packet-lay_example = process_packet-lay 0 short hi

process_packet-fold_example :
    process_packet 0 short (map fold_byte (0x48 ∷ 0x69 ∷ 0x61 ∷ []))
    ≡ process_packet 0 short (0x48 ∷ 0x69 ∷ 0x61 ∷ [])
process_packet-fold_example = process_packet-fold 0 short (0x48 ∷ 0x69 ∷ 0x61 ∷ [])

-- A libpcap that refuses nothing.
abbrev willing : Pcap
willing = record {
  lookupdev = some eth0;
  lookupnet = λ dev. some 10;
  open_live = λ dev. true;
  is_ethernet = λ dev. true;
  compile = λ dev f net. true;
  setfilter = λ dev f. true;
  unset = none;
}

mains-Checked_example :
    Checked willing (custcap_main willing ([] ∷ eth0 ∷ port_18600 ∷ []))
    × Checked willing (sniffex_main willing ([] ∷ eth0 ∷ port_18600 ∷ []))
mains-Checked_example = mains-Checked willing ([] ∷ eth0 ∷ port_18600 ∷ [])

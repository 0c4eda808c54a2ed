-- ===== src/Tests/Structs.antt =====
-- dev_examples/network_capture/src/custcap.c on a packet that is given by its structs.
use test_code.Prelude.{◌≡◌, refl, some, [], ◌∷◌, replicate, arith}
use test_code.Wire.{little_endian}
use test_code.NetworkCapture.Packet.{
  PktHdr, got_packet, packet_number, recved_time, packet_size, captured_size, from_address,
  to_address, protocol, tcp,
}
use test_code.NetworkCapture.Struct.{SniffEthernet, SniffIp, SniffTcp}
use test_code.NetworkCapture.Struct.Reads.{tcp_lines}
use test_code.NetworkCapture.Struct.Members.{IsPacket, struct_packet, got_packet-members}

abbrev header : PktHdr
header = record { ts = 5; len = 94; caplen = 94 }

abbrev ethernet_struct : SniffEthernet
ethernet_struct = record {
  ether_dhost = replicate 6 1;
  ether_shost = replicate 6 2;
  ether_type = 8;
}

abbrev ip_struct : SniffIp
ip_struct = record {
  ip_vhl = 70;
  ip_tos = 0;
  ip_len = 12032;
  ip_id = 258;
  ip_off = 64;
  ip_ttl = 64;
  ip_p = 6;
  ip_sum = 0;
  ip_src = record { byte0 = 192; byte1 = 168; byte2 = 17; byte3 = 151 };
  ip_dst = record { byte0 = 10; byte1 = 0; byte2 = 0; byte3 = 1 };
}

abbrev tcp_struct : SniffTcp
tcp_struct = record {
  th_sport = 43080;
  th_dport = 20480;
  th_seq = 33619968;
  th_ack = 9;
  th_offx2 = 80;
  th_flags = 0x18;
  th_win = 1;
  th_sum = 0;
  th_urp = 0;
}

structs-IsPacket :
    IsPacket little_endian ethernet_struct ip_struct (replicate 4 1) tcp_struct (7 ∷ 8 ∷ 9 ∷ [])
structs-IsPacket = record {
  dhost = refl;
  shost = refl;
  ip_fits = omega arith;
  proto = refl;
  hl = refl;
  tcp_fits = omega arith;
  off = omega arith;
}

got_packet-members_example :
    got_packet little_endian 3 header (
      struct_packet little_endian ethernet_struct ip_struct
        (replicate 4 1)
        tcp_struct
        (7 ∷ 8 ∷ 9 ∷ []))
    ≡ some (
      packet_number 3
          ∷ recved_time 5
          ∷ packet_size 94
          ∷ captured_size 94
          ∷ from_address (192 ∷ 168 ∷ 17 ∷ 151 ∷ [])
          ∷ to_address (10 ∷ 0 ∷ 0 ∷ 1 ∷ [])
          ∷ protocol tcp
          ∷ tcp_lines little_endian ip_struct tcp_struct 24 20,
      4,
    )
got_packet-members_example =
    got_packet-members little_endian ethernet_struct ip_struct (replicate 4 1) tcp_struct
      (7 ∷ 8 ∷ 9 ∷ []) 3 header structs-IsPacket

-- ===== src/NetworkCapture/Struct/Members.antt =====
-- What `got_packet` of dev_examples/network_capture/src/custcap.c prints of the structs of a packet.
use test_code.Prelude.{
  drop-length, append_assoc, length-append, ℕ, ◌+◌, ◌≤◌, ◌≡◌, refl, sym, ap, ap₂, ◌∙◌, some, ◌∷◌,
  ◌++◌, arith, le→ltb, drop, length,
}
use test_code.Wire.{Bytes, ByteOrder}
use test_code.NetworkCapture.Struct.{
  memory, SniffEthernet, address_bytes, SniffIp, SniffTcp, ip_members, tcp_members,
  ethernet_members,
}
use test_code.NetworkCapture.Packet.{
  from_address, to_address, protocol, tcp, packet_number, recved_time, packet_size, captured_size,
  dissect_protocol, dissect_ip, got_packet, PktHdr, protocol_of,
}
use test_code.NetworkCapture.Struct.Reads.{
  IsTcp, IsIp, tcp_lines, tcp_header_size, ip_header_size, ip_reads, dissect_tcp-tcp_lines,
  length-ethernet, length-ip,
}

-- A packet with options behind the IP header, and anything behind the TCP header.
module _ (o : ByteOrder) (e : SniffEthernet) (i : SniffIp) (options : Bytes) (t : SniffTcp)
    (rest : Bytes) where
  abbrev pub struct_packet : Bytes
  struct_packet =
      memory o 0 (ethernet_members e)
      ++ (memory o 0 (ip_members i) ++ (options ++ (memory o 0 (tcp_members t) ++ rest)))

  pub record IsPacket : Type 0 where
    pub dhost : length e.ether_dhost ≡ 6
    pub shost : length e.ether_shost ≡ 6
    pub ip_fits : IsIp i
    pub proto : i.ip_p ≡ 6
    pub hl : ip_header_size i ≡ 20 + length options
    pub tcp_fits : IsTcp t
    pub off : 20 ≤ tcp_header_size t

  pub behind_ethernet :
      IsPacket
      → drop 14 struct_packet
        ≡ memory o 0 (ip_members i) ++ (options ++ (memory o 0 (tcp_members t) ++ rest))
  behind_ethernet w =
      ap (λ n. drop n struct_packet) (sym (length-ethernet o e w.dhost w.shost))
      ∙ drop-length (memory o 0 (ethernet_members e)) _

  pub behind_ip :
      IsPacket → drop (14 + ip_header_size i) struct_packet ≡ memory o 0 (tcp_members t) ++ rest
  behind_ip w =
      let ethernet = memory o 0 (ethernet_members e) in
      let ip_header = memory o 0 (ip_members i) in
      let segment = memory o 0 (tcp_members t) ++ rest in
      let front = ethernet ++ (ip_header ++ options) in
      let size : 14 + ip_header_size i ≡ length front = omega (
        arith,
        length-append ethernet (ip_header ++ options),
        length-append ip_header options,
        length-ethernet o e w.dhost w.shost,
        length-ip o i,
        w.hl,
      ) in
      let split : front ++ segment ≡ struct_packet =
        append_assoc ethernet (ip_header ++ options) segment
        ∙ ap (λ bs. ethernet ++ bs) (append_assoc ip_header options segment) in
      ap₂ (λ n bs. drop n bs) size (sym split) ∙ drop-length front segment

  dissect_ip-members :
      IsPacket
      → dissect_ip o struct_packet
        ≡ some (
            from_address (address_bytes i.ip_src)
            ∷ to_address (address_bytes i.ip_dst)
            ∷ protocol tcp
            ∷ tcp_lines o i t (ip_header_size i) (tcp_header_size t))
  unfolding dissect_ip protocol_of dissect_protocol
  dissect_ip-members w =
      let (vhl, src, dst, p) =
        ip_reads o i (options ++ (memory o 0 (tcp_members t) ++ rest)) w.ip_fits in
      let (_, len, _, _, _) = w.ip_fits in
      rw
        (
          behind_ethernet w,
          vhl,
          src,
          dst,
          p ∙ ap some w.proto,
          le→ltb (ip_header_size i) 20 (omega (arith, w.hl)),
          behind_ip w,
          dissect_tcp-tcp_lines o i t (options ++ (memory o 0 (tcp_members t) ++ rest)) rest
              (ip_header_size i) len w.tcp_fits w.off,
        )
        refl

  -- Of a packet that the three structs stand for, with any options behind the IP header and anything
  -- behind the TCP header, `got_packet` prints the members of the structs, those that are ports and
  -- the length of the packet through `ntohs`, and adds one to the count.
  pub got_packet-members :
      (counter : ℕ) (h : PktHdr)
      → IsPacket
      → got_packet o counter h struct_packet
        ≡ some (
          packet_number counter
              ∷ recved_time h.ts
              ∷ packet_size h.len
              ∷ captured_size h.caplen
              ∷ from_address (address_bytes i.ip_src)
              ∷ to_address (address_bytes i.ip_dst)
              ∷ protocol tcp
              ∷ tcp_lines o i t (ip_header_size i) (tcp_header_size t),
          counter + 1,
        )
  unfolding got_packet
  got_packet-members counter h w = rw (dissect_ip-members w) refl

-- ===== src/NetworkCapture/Packet/Fields.antt =====
-- What `got_packet` of dev_examples/network_capture/src/custcap.c prints of a TCP segment.
use test_code.Prelude.{
  minus, pos, ℕ, ◌+◌, ◌-◌, ◌*◌, ◌/◌, ◌%◌, ◌^◌, ◌≤◌, ◌<◌, ◌≡◌, refl, sym, ap, ◌∙◌, some, List, [],
  ◌∷◌, ◌++◌, arith, ltb, leb, drop, length, length-append, drop-length, append_assoc, true, false,
  le→ltb,
}
use test_code.Bits.{bit_and, bit_and_0f, bit_and_f0}
use test_code.Wire.{Bytes, ByteOrder, little_endian, big_endian, load_u32}
use test_code.NetworkCapture.Packet.{
  Line, PktHdr, tcp, four, load_u16, u_short, u_int, ntohs, flag_names, tcp_fields, dissect_tcp,
  protocol_of, dissect_protocol, dissect_ip, got_packet, packet_number, recved_time, packet_size,
  captured_size, from_address, to_address, protocol, src_port, dst_port, tcp_flags, tcp_seq,
  tcp_ack, tcp_window, ethernet_size, ip_size, tcp_size, payload_size,
}

-- The headers, as RFC 791 and RFC 793 lay them out. A number of two bytes is written with the high
-- byte first; the fields that are not looked at are lists of their lengths.
pub record Segment : Type 0 where
  pub ethernet : Bytes
  pub hl : ℕ
  pub tos : ℕ
  pub id0 : ℕ
  pub id1 : ℕ
  pub off0 : ℕ
  pub off1 : ℕ
  pub ttl : ℕ
  pub sum0 : ℕ
  pub sum1 : ℕ
  pub src0 : ℕ
  pub src1 : ℕ
  pub src2 : ℕ
  pub src3 : ℕ
  pub dst0 : ℕ
  pub dst1 : ℕ
  pub dst2 : ℕ
  pub dst3 : ℕ
  pub ip_options : Bytes
  pub sport : ℕ
  pub dport : ℕ
  pub seq0 : ℕ
  pub seq1 : ℕ
  pub seq2 : ℕ
  pub seq3 : ℕ
  pub ack0 : ℕ
  pub ack1 : ℕ
  pub ack2 : ℕ
  pub ack3 : ℕ
  pub doff : ℕ
  pub flags : ℕ
  pub win0 : ℕ
  pub win1 : ℕ
  pub check0 : ℕ
  pub check1 : ℕ
  pub urg0 : ℕ
  pub urg1 : ℕ
  pub tcp_options : Bytes
  pub payload : Bytes

module _ (s : Segment) where
  abbrev pub total : ℕ
  total = 4 * s.hl + 4 * s.doff + length s.payload

  abbrev pub ip_part : Bytes
  ip_part =
      (64 + s.hl)
      ∷ s.tos
      ∷ (total / 256)
      ∷ (total % 256)
      ∷ s.id0
      ∷ s.id1
      ∷ s.off0
      ∷ s.off1
      ∷ s.ttl
      ∷ 6
      ∷ s.sum0
      ∷ s.sum1
      ∷ s.src0
      ∷ s.src1
      ∷ s.src2
      ∷ s.src3
      ∷ s.dst0
      ∷ s.dst1
      ∷ s.dst2
      ∷ s.dst3
      ∷ s.ip_options

  abbrev pub tcp_part : Bytes
  tcp_part =
      (s.sport / 256)
      ∷ (s.sport % 256)
      ∷ (s.dport / 256)
      ∷ (s.dport % 256)
      ∷ s.seq0
      ∷ s.seq1
      ∷ s.seq2
      ∷ s.seq3
      ∷ s.ack0
      ∷ s.ack1
      ∷ s.ack2
      ∷ s.ack3
      ∷ (s.doff * 16)
      ∷ s.flags
      ∷ s.win0
      ∷ s.win1
      ∷ s.check0
      ∷ s.check1
      ∷ s.urg0
      ∷ s.urg1
      ∷ (s.tcp_options ++ s.payload)

  abbrev pub packet : Bytes
  packet = s.ethernet ++ (ip_part ++ tcp_part)

  pub record IsSegment : Type 0 where
    pub ethernet_len : length s.ethernet ≡ 14
    pub hl_range : (5 ≤ s.hl) × (s.hl < 16)
    pub doff_range : (5 ≤ s.doff) × (s.doff < 16)
    pub ip_options_len : length s.ip_options ≡ 4 * s.hl - 20
    pub tcp_options_len : length s.tcp_options ≡ 4 * s.doff - 20
    pub total_range : total < 65536
    pub sport_range : s.sport < 65536
    pub dport_range : s.dport < 65536

pub ntohs-load_u16 :
    (o : ByteOrder) (n : ℕ) → n < 65536 → ntohs o (load_u16 o (n / 256 % 256) (n % 256 % 256)) ≡ n
unfolding ntohs load_u16
ntohs-load_u16 little_endian n h = omega arith
ntohs-load_u16 big_endian n h = omega arith

module _ (o : ByteOrder) (s : Segment) (w : IsSegment s) where
  -- The sizes of the two headers, as the code takes them out of their fields.
  pub size_of_tcp : bit_and (s.doff * 16 % 256) 0xf0 / 2 ^ 4 * 4 ≡ 4 * s.doff
  size_of_tcp = omega (arith, bit_and_f0 (s.doff * 16 % 256), w.doff_range)

  pub long_tcp : ltb (4 * s.doff) 20 ≡ false
  long_tcp = le→ltb (4 * s.doff) 20 (omega (arith, w.doff_range))

  pub size_of_ip : bit_and ((64 + s.hl) % 256) 0x0f * 4 ≡ s.hl * 4
  size_of_ip = omega (arith, bit_and_0f ((64 + s.hl) % 256), w.hl_range)

  pub long_ip : ltb (s.hl * 4) 20 ≡ false
  long_ip = le→ltb (s.hl * 4) 20 (omega (arith, w.hl_range))

  -- The lines from the TCP header on.
  abbrev pub tcp_lines : List Line
  tcp_lines =
      src_port s.sport
      ∷ dst_port s.dport
      ∷ tcp_flags (s.flags % 256) (flag_names (s.flags % 256))
      ∷ tcp_seq (load_u32 o (s.seq0 % 256 ∷ s.seq1 % 256 ∷ s.seq2 % 256 ∷ s.seq3 % 256 ∷ []))
      ∷ tcp_ack (load_u32 o (s.ack0 % 256 ∷ s.ack1 % 256 ∷ s.ack2 % 256 ∷ s.ack3 % 256 ∷ []))
      ∷ tcp_window (load_u16 o (s.win0 % 256) (s.win1 % 256))
      ∷ ethernet_size 14
      ∷ ip_size (4 * s.hl)
      ∷ tcp_size (4 * s.doff)
      ∷ payload_size (pos (length s.payload))
      ∷ []

  dissect_tcp-tcp_lines :
      (rest : Bytes) → dissect_tcp o (ip_part s ++ rest) (tcp_part s) (s.hl * 4) ≡ some tcp_lines
  unfolding dissect_tcp tcp_fields u_short u_int four minus
  dissect_tcp-tcp_lines rest =
      let ip_total = ntohs-load_u16 o (total s) w.total_range in
      let hl4 : s.hl * 4 ≡ 4 * s.hl = omega arith in
      let fits : leb (4 * s.hl + 4 * s.doff) (total s) ≡ true = ground arith in
      let left : total s - (4 * s.hl + 4 * s.doff) ≡ length s.payload = omega arith in
      rw
        (
          size_of_tcp,
          long_tcp,
          ntohs-load_u16 o s.sport w.sport_range,
          ntohs-load_u16 o s.dport w.dport_range,
          ip_total,
          hl4,
          fits,
          left,
        )
        refl

  pub behind_ethernet : drop 14 (packet s) ≡ ip_part s ++ tcp_part s
  behind_ethernet =
      ap (λ n. drop n (packet s)) (sym w.ethernet_len)
      ∙ drop-length s.ethernet (ip_part s ++ tcp_part s)

  pub behind_ip : drop (14 + s.hl * 4) (packet s) ≡ tcp_part s
  behind_ip =
      let front = s.ethernet ++ ip_part s in
      let size : 14 + s.hl * 4 ≡ length front = omega (
        arith,
        length-append s.ethernet (ip_part s),
        w.ethernet_len,
        w.ip_options_len,
        w.hl_range,
      ) in
      ap (λ n. drop n (packet s)) size
      ∙ ap (drop (length front)) (sym (append_assoc s.ethernet (ip_part s) (tcp_part s)))
      ∙ drop-length front (tcp_part s)

  abbrev pub ip_lines : List Line
  ip_lines =
      from_address (s.src0 % 256 ∷ s.src1 % 256 ∷ s.src2 % 256 ∷ s.src3 % 256 ∷ [])
      ∷ to_address (s.dst0 % 256 ∷ s.dst1 % 256 ∷ s.dst2 % 256 ∷ s.dst3 % 256 ∷ [])
      ∷ protocol tcp
      ∷ tcp_lines

  dissect_ip-ip_lines : dissect_ip o (packet s) ≡ some ip_lines
  unfolding dissect_ip four protocol_of dissect_protocol
  dissect_ip-ip_lines =
      rw (behind_ethernet, size_of_ip, long_ip, behind_ip, dissect_tcp-tcp_lines (tcp_part s)) refl

  -- Of a TCP segment over IP and Ethernet, with any options in both headers, `got_packet` prints the
  -- addresses, the ports, the flags and the sizes of the headers and of the payload that the segment
  -- was made with, and adds one to the count. The sequence and acknowledgement numbers and the window
  -- are printed as the host reads them, in its own byte order.
  pub got_packet-packet :
      (counter : ℕ) (h : PktHdr)
      → got_packet o counter h (packet s)
        ≡ some (
          packet_number counter
              ∷ recved_time h.ts
              ∷ packet_size h.len
              ∷ captured_size h.caplen
              ∷ ip_lines,
          counter + 1,
        )
  unfolding got_packet
  got_packet-packet counter h = rw dissect_ip-ip_lines refl

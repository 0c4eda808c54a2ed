-- ===== src/NetworkCapture/Sniffex/Segments.antt =====
-- What `got_packet` of dev_examples/network_capture/example/sniffex.c prints of a TCP segment.
use test_code.Prelude.{
  pos, minus, ℕ, suc, ◌+◌, ◌-◌, ◌*◌, ◌/◌, ◌%◌, ◌≡◌, refl, sym, ap, ◌∙◌, some, List, [], ◌∷◌, ◌++◌,
  arith, ltb, leb, drop, length, drop-length, true, false,
}
use test_code.Wire.{Bytes, ByteOrder, load_u32}
use test_code.NetworkCapture.Dump.Rows.{rows, drop-drop, print_payload-rows}
use test_code.NetworkCapture.Packet.{
  tcp, four, load_u16, u_short, u_int, flag_names, protocol_of, packet_number, from_address,
  to_address, protocol, src_port, dst_port, tcp_flags, tcp_seq, tcp_ack, tcp_window, payload_size,
}
use test_code.NetworkCapture.Packet.Fields.{
  Segment, IsSegment, total, ip_part, tcp_part, packet, ntohs-load_u16, behind_ethernet, behind_ip,
  size_of_tcp, long_tcp, size_of_ip, long_ip,
}
use test_code.NetworkCapture.Sniffex.{
  Shown, line, payload_dump, show_payload, tcp_fields, dissect_tcp, dissect_protocol, dissect_ip,
  got_packet,
}

-- The payload as rows of 16 bytes, or its size only where it is empty.
unfoldable pub payload_lines : Bytes → List Shown
payload_lines [] = line (payload_size (pos 0)) ∷ []
payload_lines (b ∷ p) =
    payload_dump (length (b ∷ p)) (rows (b ∷ p) (length (b ∷ p)) 0 ((length (b ∷ p) + 15) / 16))
    ∷ []

show_payload-payload_lines : (p : Bytes) → show_payload p (pos (length p)) ≡ some (payload_lines p)
unfolding show_payload payload_lines
show_payload-payload_lines [] = refl
show_payload-payload_lines (b ∷ p) =
    let inside : ltb (suc (length p)) (suc (length p)) ≡ false = ground arith in
    rw (inside, print_payload-rows (b ∷ p) (suc (length p))) refl

module _ (o : ByteOrder) (s : Segment) (w : IsSegment s) where
  behind_tcp : drop (4 * s.doff) (tcp_part s) ≡ s.payload
  behind_tcp =
      let size : 4 * s.doff ≡ 20 + length s.tcp_options =
        omega (arith, w.tcp_options_len, w.doff_range) in
      ap (λ n. drop n (tcp_part s)) size
      ∙ sym (drop-drop 20 (length s.tcp_options) (tcp_part s))
      ∙ drop-length s.tcp_options s.payload

  abbrev pub tcp_lines : List Shown
  tcp_lines =
      line (src_port s.sport)
      ∷ line (dst_port s.dport)
      ∷ line (tcp_flags (s.flags % 256) (flag_names (s.flags % 256)))
      ∷ line (tcp_seq (load_u32 o (s.seq0 % 256 ∷ s.seq1 % 256 ∷ s.seq2 % 256 ∷ s.seq3 % 256 ∷ [])))
      ∷ line (tcp_ack (load_u32 o (s.ack0 % 256 ∷ s.ack1 % 256 ∷ s.ack2 % 256 ∷ s.ack3 % 256 ∷ [])))
      ∷ line (tcp_window (load_u16 o (s.win0 % 256) (s.win1 % 256)))
      ∷ payload_lines s.payload

  dissect_tcp-tcp_lines :
      (rest : Bytes) → dissect_tcp o (ip_part s ++ rest) (tcp_part s) (s.hl * 4) ≡ some tcp_lines
  unfolding dissect_tcp tcp_fields u_short u_int four minus
  dissect_tcp-tcp_lines rest =
      let hl4 : s.hl * 4 ≡ 4 * s.hl = omega arith in
      let fits : leb (4 * s.hl + 4 * s.doff) (total s) ≡ true = ground arith in
      let left : total s - (4 * s.hl + 4 * s.doff) ≡ length s.payload = omega arith in
      rw
        (
          size_of_tcp o s w,
          long_tcp o s w,
          ntohs-load_u16 o s.sport w.sport_range,
          ntohs-load_u16 o s.dport w.dport_range,
          ntohs-load_u16 o (total s) w.total_range,
          hl4,
          fits,
          left,
          behind_tcp,
          show_payload-payload_lines s.payload,
        )
        refl

  abbrev pub ip_lines : List Shown
  ip_lines =
      line (from_address (s.src0 % 256 ∷ s.src1 % 256 ∷ s.src2 % 256 ∷ s.src3 % 256 ∷ []))
      ∷ line (to_address (s.dst0 % 256 ∷ s.dst1 % 256 ∷ s.dst2 % 256 ∷ s.dst3 % 256 ∷ []))
      ∷ line (protocol tcp)
      ∷ tcp_lines

  dissect_ip-ip_lines : dissect_ip o (packet s) ≡ some ip_lines
  unfolding dissect_ip four protocol_of dissect_protocol
  dissect_ip-ip_lines =
      rw
        (
          behind_ethernet o s w,
          size_of_ip o s w,
          long_ip o s w,
          behind_ip o s w,
          dissect_tcp-tcp_lines (tcp_part s),
        )
        refl

  -- Of a TCP segment over IP and Ethernet, with any options in both headers, `got_packet` prints the
  -- addresses, the ports and the flags that the segment was made with, the sequence and
  -- acknowledgement numbers and the window as the host reads them, and then the size of the payload
  -- and, if there is one, all of its bytes and no other, in rows of 16.
  pub got_packet-shown :
      (counter : ℕ)
      → got_packet o counter (packet s)
        ≡ some (line (packet_number counter) ∷ ip_lines, counter + 1)
  unfolding got_packet
  got_packet-shown counter = rw dissect_ip-ip_lines refl

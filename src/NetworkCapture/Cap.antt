-- ===== src/NetworkCapture/Cap.antt =====
-- dev_examples/network_capture/example/cap.c: what `processPacket` prints of a captured packet. A read
-- behind the captured bytes gives `none`.
pub mod Layout
use mathlib.Core.Bool.{not, ◌||◌}
use mathlib.Core.Option
use test_code.Prelude.{
  ℕ, zero, suc, ◌+◌, ◌-◌, ◌%◌, Bool, ◌&&◌, Option, none, some, List, [], ◌∷◌, ◌++◌, ltb, leb, ◌==◌,
  if◌then◌else◌,
}
use test_code.Wire.{Bytes}
use test_code.NetworkCapture.Dump.{Text, hex_digit, hex_byte}
use test_code.NetworkCapture.Packet.{PktHdr}

-- `%2x` of a byte: a space in front of a single digit.
unfoldable pub hex_padded : ℕ → Text
hex_padded b = if ltb b 16 then 32 ∷ hex_digit b ∷ [] else hex_byte b

-- What is printed of one byte: a small letter between spaces, or the number.
unfoldable pub cell : ℕ → Text
cell b = if leb 97 b && leb b 122 then 32 ∷ b ∷ 32 ∷ [] else hex_padded b ++ 32 ∷ []

abbrev pub new_line : ℕ → ℕ → Text
new_line len i = if (i % 16 == 0 && not (i == 0)) || i == len - 1 then 10 ∷ [] else []

-- `for(i=0;i<pkthdr->len;i++)`, from an index on, with the bytes from there on.
unfoldable pub dump : ℕ → ℕ → ℕ → Bytes → Option Text
dump len i zero ch = some []
dump len i (suc left) [] = none
dump len i (suc left) (b ∷ ch) =
    Option.map (λ rest. cell (b % 256) ++ (new_line len i ++ rest)) (dump len (suc i) left ch)

-- The numbers behind `Packet count:` and `Recved packet size:`, and the text behind `Payload:`.
pub record Printed : Type 0 where
  pub count : ℕ
  pub size : ℕ
  pub payload : Text

-- What is printed, and `*counter` after the call.
unfoldable pub process_packet : ℕ → PktHdr → Bytes → Option (Printed × ℕ)
process_packet counter pkthdr packet =
    Option.map
      (λ text. (record { count = counter + 1; size = pkthdr.len; payload = text }, counter + 1))
      (dump pkthdr.len 0 pkthdr.len packet)

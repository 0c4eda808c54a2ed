-- ===== src/Tests/Hash.antt =====
-- lite_test/ip_hash/ip_hash.cpp on concrete numbers.
use test_code.Prelude.{◌≡◌, refl, List, [], ◌∷◌, length, arith, ◌+◌, ◌*◌, ◌/◌, ◌%◌, ◌^◌}
use test_code.IpHash.{ip_hash, hash_rounds, Draws, draw_ip}
use test_code.IpHash.Formula.{high, middle, low, ip_hash-closed, ip_hash-draw_ip}
use test_code.IpHash.Counts.{sum}
use test_code.IpHash.Order.{Drawn, hits_of, rounds, hits_of-sum}
use mathlib.Core.Quot

ip_hash_run : ip_hash 8 0xC0A8119 ≡ 6
unfolding ip_hash hash_rounds
ip_hash_run = refl

ip_hash-closed_example :
    ip_hash 8 0xC0A81197
    ≡ (89 * 113 ^ 3 + high 0xC0A81197 * 113 ^ 2 + middle 0xC0A81197 * 113 + low 0xC0A81197)
      % 6271
      % 8
ip_hash-closed_example = ip_hash-closed 7 0xC0A81197

abbrev draws : List Draws
draws =
    record { first = 900; second = 17; third = 254 }
    ∷ record { first = 3; second = 600; third = 255 }
    ∷ []

ip_hash-draw_ip_example :
    ip_hash 8 (draw_ip (record { first = 900; second = 17; third = 254 }))
    ≡ (89 * 113 ^ 3 + (17 + 2 * 254) / 256 * 113 + (17 + 2 * 254) % 256) % 6271 % 8
ip_hash-draw_ip_example = ip_hash-draw_ip 7 (record { first = 900; second = 17; third = 254 })

abbrev drawn : Drawn
drawn = Quot.mk draws

hits_of-sum_example : (sum (hits_of 8 drawn) ≡ 2) × (length (hits_of 8 drawn) ≡ 8)
unfolding rounds
hits_of-sum_example = hits_of-sum 8 drawn (omega arith)

-- ===== src/IpHash.antt =====
-- lite_test/ip_hash/ip_hash.cpp: the hash of an IPv4 address to a peer, and the count of how often
-- each peer is hit. What `rand()` gives is an argument.
pub mod Formula
pub mod Counts
pub mod Order
use test_code.Prelude.{
  ℕ, zero, suc, ◌+◌, ◌-◌, ◌*◌, ◌/◌, ◌%◌, ◌^◌, List, [], ◌∷◌, ltb, ◌==◌, if◌then◌else◌, adjust,
  replicate,
}
use test_code.Bits.{bit_and}

abbrev masks : List ℕ
masks = 0xFF000000 ∷ 0x00FF0000 ∷ 0x0000FF00 ∷ []

-- The rounds of the loop from index `i` on, over the masks that are left.
unfoldable pub hash_rounds : ℕ → ℕ → List ℕ → ℕ → ℕ
hash_rounds ip i [] hash = hash
hash_rounds ip i (mask ∷ rest) hash =
    let t = bit_and ip mask / 2 ^ (8 * (3 - i)) in
    hash_rounds ip (suc i) rest ((hash * 113 + t) % 2 ^ 32 % 6271)

unfoldable pub ip_hash : ℕ → ℕ → ℕ
ip_hash peer_cnt ip = if peer_cnt == 0 then 0 else hash_rounds ip 0 masks 89 % peer_cnt

-- The three calls of `rand()` of one round of the loop in `main`.
pub record Draws : Type 0 where
  pub first : ℕ
  pub second : ℕ
  pub third : ℕ

-- `ip += rand_num[i]*256*i`
unfoldable pub draw_ip : Draws → ℕ
draw_ip r = (r.first % 255 * 256 * 0 + r.second % 255 * 256 * 1 + r.third % 255 * 256 * 2) % 2 ^ 32

-- `while(total_num_temp-->0)`, one round for each element.
unfoldable pub count_hits : ℕ → List Draws → List ℕ → List ℕ
count_hits peer_number [] result = result
count_hits peer_number (r ∷ rest) result =
    count_hits peer_number rest (adjust (ip_hash peer_number (draw_ip r)) suc result)

unfoldable pub hits : ℕ → List Draws → List ℕ
hits peer_number draws = count_hits peer_number draws (replicate peer_number 0)

-- `not_good_peer_cnt_gt` and `not_good_peer_cnt_lt`: how many counts lie beyond half of the average.
unfoldable pub not_good_gt : ℕ → List ℕ → ℕ
not_good_gt avg [] = 0
not_good_gt avg (n ∷ result) =
    let rest = not_good_gt avg result in if ltb (avg * 3 / 2) n then suc rest else rest

unfoldable pub not_good_lt : ℕ → List ℕ → ℕ
not_good_lt avg [] = 0
not_good_lt avg (n ∷ result) =
    let rest = not_good_lt avg result in if ltb n (avg / 2) then suc rest else rest

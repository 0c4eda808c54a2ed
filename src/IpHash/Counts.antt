-- ===== src/IpHash/Counts.antt =====
-- The counts of `main` in lite_test/ip_hash/ip_hash.cpp.
use test_code.Prelude.{
  length-adjust, ℕ, zero, suc, ◌+◌, ◌<◌, ◌≡◌, refl, ap, ◌∙◌, arith, List, [], ◌∷◌, length, adjust,
  replicate,
}
use test_code.IpHash.{ip_hash, Draws, draw_ip, count_hits, hits}
use test_code.IpHash.Formula.{ip_hash-lt}

abbrev pub sum : List ℕ → ℕ
sum [] = 0
sum (n ∷ ns) = n + sum ns

sum-adjust : (i : ℕ) (ns : List ℕ) → i < length ns → sum (adjust i suc ns) ≡ suc (sum ns)
sum-adjust i [] h = absurd (omega arith)
sum-adjust zero (n ∷ ns) h = omega arith
sum-adjust (suc i) (n ∷ ns) h = omega (arith, sum-adjust i ns (omega arith))

zeros : (n : ℕ) → (sum (replicate n 0) ≡ 0) × (length {A = ℕ} (replicate n 0) ≡ n)
zeros zero = (refl, refl)
zeros (suc n) = let (none_yet, size) = zeros n in (omega (arith, none_yet), ap suc size)

count_hits-sum :
    (peers : ℕ) (draws : List Draws) (result : List ℕ)
    → 0 < peers
    → length result ≡ peers
    → (sum (count_hits peers draws result) ≡ sum result + length draws)
      × (length (count_hits peers draws result) ≡ peers)
unfolding count_hits
count_hits-sum peers [] result h size = (omega arith, size)
count_hits-sum peers (r ∷ draws) result h size =
    let i = ip_hash peers (draw_ip r) in
    let inside = ip_hash-lt peers (draw_ip r) h in
    let (total, size') =
      count_hits-sum peers draws (adjust i suc result) h (length-adjust suc i result ∙ size) in
    (omega (arith, total, sum-adjust i result (omega arith)), size')

-- With at least one peer, every round of `main` hits one of the counts: there is one for each peer,
-- and together they are the number of rounds.
pub hits-sum :
    (peers : ℕ) (draws : List Draws)
    → 0 < peers
    → (sum (hits peers draws) ≡ length draws) × (length (hits peers draws) ≡ peers)
unfolding hits
hits-sum peers draws h =
    let (none_yet, size) = zeros peers in
    let (total, size') = count_hits-sum peers draws (replicate peers 0) h size in
    (omega (arith, total, none_yet), size')

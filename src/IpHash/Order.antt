-- ===== src/IpHash/Order.antt =====
-- The counts of `main` in lite_test/ip_hash/ip_hash.cpp do not depend on the order of its rounds.
use mathlib.Core.Quot
use mathlib.Core.Quot.{Quot, Quot-set}
use test_code.Prelude.{ℕ, zero, suc, ◌<◌, ◌≡◌, refl, ap, List, [], ◌∷◌, length, adjust, replicate}
use test_code.IpHash.{ip_hash, Draws, draw_ip, count_hits, hits}
use test_code.IpHash.Counts.{sum, hits-sum}

-- Two rounds, one behind the other, change places.
pub data Reordered : List Draws → List Draws → Type 0 where
  swap : (a b : Draws) (ds : List Draws) → Reordered (a ∷ b ∷ ds) (b ∷ a ∷ ds)
  behind : (a : Draws) (ds es : List Draws) → Reordered ds es → Reordered (a ∷ ds) (a ∷ es)

-- What is drawn, without its order.
abbrev pub Drawn : Type 0
Drawn = Quot Reordered

adjust_comm :
    (i j : ℕ) (ns : List ℕ) → adjust i suc (adjust j suc ns) ≡ adjust j suc (adjust i suc ns)
adjust_comm i j [] = refl
adjust_comm zero zero (n ∷ ns) = refl
adjust_comm zero (suc j) (n ∷ ns) = refl
adjust_comm (suc i) zero (n ∷ ns) = refl
adjust_comm (suc i) (suc j) (n ∷ ns) = ap (λ rest. n ∷ rest) (adjust_comm i j ns)

pub count_hits-Reordered :
    (peers : ℕ) (ds es : List Draws) (result : List ℕ)
    → Reordered ds es
    → count_hits peers ds result ≡ count_hits peers es result
unfolding count_hits
count_hits-Reordered peers _ _ result (swap a b ds) =
    ap (count_hits peers ds)
      (adjust_comm (ip_hash peers (draw_ip b)) (ip_hash peers (draw_ip a)) result)
count_hits-Reordered peers _ _ result (behind a ds es r) =
    count_hits-Reordered peers ds es (adjust (ip_hash peers (draw_ip a)) suc result) r

pub length-Reordered : (ds es : List Draws) → Reordered ds es → length ds ≡ length es
length-Reordered _ _ (swap a b ds) = refl
length-Reordered _ _ (behind a ds es r) = ap suc (length-Reordered ds es r)

-- The counts, and the number of rounds, of what is drawn in any order.
unfoldable pub hits_of : ℕ → Drawn → List ℕ
unfolding hits
hits_of peers =
    Quot.lift (hlevel) (hits peers)
      (λ ds es r. count_hits-Reordered peers ds es (replicate peers 0) r)

unfoldable pub rounds : Drawn → ℕ
rounds = Quot.lift (hlevel) length length-Reordered

-- The counts of `main` depend only on what is drawn, not on the order of the rounds. With at least one
-- peer there is one for each peer, and together they are the number of rounds.
pub hits_of-sum :
    (peers : ℕ) (drawn : Drawn)
    → 0 < peers
    → (sum (hits_of peers drawn) ≡ rounds drawn) × (length (hits_of peers drawn) ≡ peers)
unfolding hits_of rounds
hits_of-sum peers drawn h =
    Quot.ind {r = Reordered}
      {β = λ d. (sum (hits_of peers d) ≡ rounds d) × (length (hits_of peers d) ≡ peers)}
      (λ d. hlevel) (λ ds. hits-sum peers ds h) drawn

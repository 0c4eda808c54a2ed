-- ===== src/IpHash/Formula.antt =====
-- The hash of lite_test/ip_hash/ip_hash.cpp as a polynomial of three bytes of the address.
use test_code.Prelude.{
  ℕ, zero, suc, ◌+◌, ◌*◌, ◌/◌, ◌%◌, ◌^◌, ◌<◌, ◌≡◌, refl, sym, ap, ◌∙◌, arith, ◌==◌, false,
}
use test_code.Bits.{bit_and, bit_and_ff, bit_and_byte}
use test_code.IpHash.{hash_rounds, ip_hash, Draws, draw_ip}

-- The three bytes of the address that count, as `ip` holds them.
abbrev pub high : ℕ → ℕ
high ip = ip / 2 ^ 24 % 256

abbrev pub middle : ℕ → ℕ
middle ip = ip / 2 ^ 16 % 256

abbrev pub low : ℕ → ℕ
low ip = ip / 2 ^ 8 % 256

masked_low : (ip : ℕ) → bit_and ip 0x0000FF00 / 2 ^ 8 ≡ low ip
masked_low ip = omega (arith, bit_and_byte ip 0xff, bit_and_ff (ip / 256))

masked_middle : (ip : ℕ) → bit_and ip 0x00FF0000 / 2 ^ 16 ≡ middle ip
masked_middle ip =
    omega (arith, bit_and_byte ip 0xff00, bit_and_byte (ip / 256) 0xff, bit_and_ff (ip / 256 / 256))

masked_high : (ip : ℕ) → bit_and ip 0xFF000000 / 2 ^ 24 ≡ high ip
masked_high ip = omega (
  arith,
  bit_and_byte ip 0xff0000,
  bit_and_byte (ip / 256) 0xff00,
  bit_and_byte (ip / 256 / 256) 0xff,
  bit_and_ff (ip / 256 / 256 / 256),
)

-- Taking the remainder after each round is taking it at the end, and no round overflows.
horner :
    (a b c : ℕ)
    → a < 256
    → b < 256
    → c < 256
    → (((89 * 113 + a) % 2 ^ 32 % 6271 * 113 + b) % 2 ^ 32 % 6271 * 113 + c) % 2 ^ 32 % 6271
      ≡ (89 * 113 ^ 3 + a * 113 ^ 2 + b * 113 + c) % 6271
horner a b c ha hb hc = omega arith

-- Without any overflow on the way, the hash is a polynomial at 113 of 89 and the three high bytes of
-- the address, from the highest, modulo 6271 and then the number of peers.
pub ip_hash-closed :
    (peer_cnt ip : ℕ)
    → ip_hash (suc peer_cnt) ip
      ≡ (89 * 113 ^ 3 + high ip * 113 ^ 2 + middle ip * 113 + low ip) % 6271 % suc peer_cnt
unfolding ip_hash hash_rounds
ip_hash-closed peer_cnt ip =
    let peers : (suc peer_cnt == 0) ≡ false = ground arith in
    rw (peers, masked_high ip, masked_middle ip, masked_low ip)
      (ap (λ h. h % suc peer_cnt)
        (horner (high ip) (middle ip) (low ip) (omega arith) (omega arith) (omega arith)))

-- The first eight bits in memory on a little-endian host, the low byte of `ip`, do not count.
pub ip_hash_low_byte :
    (peer_cnt ip ip' : ℕ) → ip / 256 ≡ ip' / 256 → ip_hash peer_cnt ip ≡ ip_hash peer_cnt ip'
ip_hash_low_byte zero ip ip' e = unfold ip_hash in refl
ip_hash_low_byte (suc p) ip ip' e =
    let same_low : low ip ≡ low ip' = omega arith in
    let same_middle : middle ip ≡ middle ip' = omega arith in
    let same_high : high ip ≡ high ip' = omega arith in
    ip_hash-closed p ip ∙ rw (same_low, same_middle, same_high) (sym (ip_hash-closed p ip'))

pub ip_hash-lt : (peer_cnt ip : ℕ) → 0 < peer_cnt → ip_hash peer_cnt ip < peer_cnt
unfolding ip_hash
ip_hash-lt peer_cnt ip h = ground arith

-- What `main` draws: the first number does not count, and the others only as the sum of the second
-- and twice the third.
pub ip_hash-draw_ip :
    (peer_cnt : ℕ) (r : Draws)
    → ip_hash (suc peer_cnt) (draw_ip r)
      ≡ (89 * 113 ^ 3
          + (r.second % 255 + 2 * (r.third % 255)) / 256 * 113
          + (r.second % 255 + 2 * (r.third % 255)) % 256)
        % 6271
        % suc peer_cnt
unfolding draw_ip
ip_hash-draw_ip peer_cnt r =
    let n = r.second % 255 + 2 * (r.third % 255) in
    let ip : draw_ip r ≡ n * 256 = omega arith in
    let no_high : high (draw_ip r) ≡ 0 = omega (arith, ip) in
    let middle_part : middle (draw_ip r) ≡ n / 256 = omega (arith, ip) in
    let low_part : low (draw_ip r) ≡ n % 256 = omega (arith, ip) in
    ip_hash-closed peer_cnt (draw_ip r) ∙ ap (λ h. h % suc peer_cnt) (omega arith)

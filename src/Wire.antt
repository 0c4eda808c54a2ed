-- ===== src/Wire.antt =====
-- Four-byte words in memory and on the wire: what `*(unsigned *)p`, `memcpy` of an `unsigned`,
-- `ntohl` and `htonl` do on a host of either byte order. A byte of memory is a number that is read
-- modulo 256.
use test_code.Prelude.{
  ℕ, ◌+◌, ◌*◌, ◌/◌, ◌%◌, ◌^◌, ◌≤◌, ◌<◌, ◌≡◌, refl, List, [], ◌∷◌, ◌++◌, arith, get_or, length,
  get_or-append, ◌-◌, replicate, take, drop, length-take, append-nil, ap, sym, ◌∙◌,
  take-append-drop,
}

abbrev pub Bytes : Type 0
Bytes = List ℕ

pub data ByteOrder : Type 0 where
  little_endian big_endian : ByteOrder

-- The byte at an offset, as an `unsigned char`.
abbrev pub byte_at : Bytes → ℕ → ℕ
byte_at bs i = get_or bs i 0 % 256

-- The number that four bytes stand for in network order, and back.
unfoldable pub be32 : Bytes → ℕ
be32 bs = byte_at bs 0 * 2 ^ 24 + byte_at bs 1 * 2 ^ 16 + byte_at bs 2 * 2 ^ 8 + byte_at bs 3

unfoldable pub to_be32 : ℕ → Bytes
to_be32 n = (n / 2 ^ 24 % 256) ∷ (n / 2 ^ 16 % 256) ∷ (n / 2 ^ 8 % 256) ∷ (n % 256) ∷ []

-- `*(unsigned *)p`
unfoldable pub load_u32 : ByteOrder → Bytes → ℕ
unfolding be32
load_u32 little_endian bs =
    byte_at bs 3 * 2 ^ 24 + byte_at bs 2 * 2 ^ 16 + byte_at bs 1 * 2 ^ 8 + byte_at bs 0
load_u32 big_endian bs = be32 bs

-- `memcpy(p, &t, sizeof(unsigned))`
unfoldable pub store_u32 : ByteOrder → ℕ → Bytes
unfolding to_be32
store_u32 little_endian n =
    (n % 256) ∷ (n / 2 ^ 8 % 256) ∷ (n / 2 ^ 16 % 256) ∷ (n / 2 ^ 24 % 256) ∷ []
store_u32 big_endian n = to_be32 n

swap_u32 : ℕ → ℕ
swap_u32 n =
    n % 256 * 2 ^ 24 + n / 2 ^ 8 % 256 * 2 ^ 16 + n / 2 ^ 16 % 256 * 2 ^ 8 + n / 2 ^ 24 % 256

unfoldable pub ntohl : ByteOrder → ℕ → ℕ
unfolding swap_u32
ntohl little_endian n = swap_u32 n
ntohl big_endian n = n

unfoldable pub htonl : ByteOrder → ℕ → ℕ
unfolding swap_u32
htonl little_endian n = swap_u32 n
htonl big_endian n = n

-- Reading a word and passing it to `ntohl` gives the same number on every host.
pub ntohl-load_u32 : (o : ByteOrder) (bs : Bytes) → ntohl o (load_u32 o bs) ≡ be32 bs
unfolding ntohl load_u32
ntohl-load_u32 little_endian bs = omega arith
ntohl-load_u32 big_endian bs = refl

-- Storing what `htonl` gives puts the bytes in network order on every host.
pub store_u32-htonl : (o : ByteOrder) (n : ℕ) → store_u32 o (htonl o n) ≡ to_be32 n
unfolding htonl store_u32
store_u32-htonl little_endian n = ground arith
store_u32-htonl big_endian n = refl

pub be32-to_be32 : (n : ℕ) (rest : Bytes) → n < 2 ^ 32 → be32 (to_be32 n ++ rest) ≡ n
unfolding be32 to_be32
be32-to_be32 n rest h = omega arith

-- The bytes behind the first four do not count.
pub be32-append : (xs ys : Bytes) → 4 ≤ length xs → be32 (xs ++ ys) ≡ be32 xs
unfolding be32
be32-append xs ys h = rw (
  get_or-append xs ys 0 0 (omega arith),
  get_or-append xs ys 1 0 (omega arith),
  get_or-append xs ys 2 0 (omega arith),
  get_or-append xs ys 3 0 (omega arith),
)

-- `std::string data(n, '\0')` after the bytes `bs`, at most n, were copied to its start.
unfoldable pub fill : ℕ → Bytes → Bytes
fill n bs = bs ++ replicate (n - length bs) 0

pub fill-take : (n : ℕ) (bs : Bytes) → n ≤ length bs → fill n (take n bs) ≡ take n bs
unfolding fill
fill-take n bs h =
    let full : n - length (take n bs) ≡ 0 = omega (arith, length-take n bs) in
    rw full (append-nil (take n bs))

pub be32-fill : (bs : Bytes) → 4 ≤ length bs → be32 (fill 4 (take 4 bs)) ≡ be32 bs
be32-fill bs h =
    ap be32 (fill-take 4 bs h)
    ∙ sym (be32-append (take 4 bs) (drop 4 bs) (omega (arith, length-take 4 bs)))
    ∙ ap be32 (take-append-drop 4 bs)

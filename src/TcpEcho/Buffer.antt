-- ===== src/TcpEcho/Buffer.antt =====
-- The buffer of `handle_message` in lite_test/TCP_USER_TIMEOUT_test/tcptest_server.cpp, and the flags of
-- a descriptor in `setnonblocking`.
use Prim.Native.Nat.{bit_or}
use test_code.Prelude.{
  ◌^◌, ℕ, zero, suc, ◌+◌, ◌-◌, ◌≤◌, ◌<◌, ◌≡◌, refl, arith, Bool, Option, none, some, [], ◌∷◌, ◌++◌,
  ltb, ◌==◌, if◌then◌else◌, length, length-append, length-take, take, take-append, adjust,
  replicate, length-replicate,
}
use test_code.Wire.{Bytes}
use test_code.TcpEcho.{max_buf}

-- The bytes that `%s` prints.
unfoldable pub c_string : Bytes → Bytes
c_string [] = []
c_string (c ∷ cs) = let rest = c_string cs in if c == 0 then [] else c ∷ rest

-- `buf` after bzero and recv, where these bytes wait.
unfoldable pub received : Bytes → Bytes
received incoming = let got = take max_buf incoming in got ++ replicate (max_buf + 1 - length got) 0

-- `buf[sn]='\0'`; `none` where the index is outside, as it is if send returns -1.
unfoldable pub mark_sent : Option ℕ → Bytes → Option Bytes
mark_sent none buf = none
mark_sent (some sn) buf = if ltb sn (length buf) then some (adjust sn (λ c. 0) buf) else none

-- The two texts that `handle_message` prints for bytes that wait, in front of send and behind it.
unfoldable pub print_message : Bytes → Option ℕ → Option (Bytes × Bytes)
print_message incoming written =
    let buf = received incoming in
    elim (mark_sent written buf) [ none ↦ none | some after ↦ some (c_string buf, c_string after) ]

-- `O_NONBLOCK`
abbrev o_nonblock : ℕ
o_nonblock = 2048

-- What `setnonblocking` asks F_SETFL for, by what `fcntl(sockfd, F_GETFD, 0)` returns, of which `none` is
-- -1.
unfoldable pub requested_flags : Option ℕ → ℕ
requested_flags none = 2 ^ 32 - 1
requested_flags (some fd_flags) = bit_or fd_flags o_nonblock

-- `setnonblocking` returns 0 where F_SETFL does not fail for the flags.
unfoldable pub setnonblocking : Option ℕ → (ℕ → Bool) → Bool
setnonblocking fd_flags set_flags = set_flags (requested_flags fd_flags)

c_string-zeros : (xs : Bytes) (n : ℕ) → c_string (xs ++ replicate n 0) ≡ c_string xs
unfolding c_string
c_string-zeros [] zero = refl
c_string-zeros [] (suc n) = refl
c_string-zeros (x ∷ xs) n = rw (c_string-zeros xs n) refl

c_string-adjust :
    (n : ℕ) (xs : Bytes) → n < length xs → c_string (adjust n (λ c. 0) xs) ≡ c_string (take n xs)
unfolding c_string
c_string-adjust n [] h = absurd (omega arith)
c_string-adjust zero (x ∷ xs) h = refl
c_string-adjust (suc n) (x ∷ xs) h = rw (c_string-adjust n xs (omega arith)) refl

length-received : (incoming : Bytes) → length (received incoming) ≡ max_buf + 1
unfolding received
length-received incoming =
    let got = take max_buf incoming in
    omega (
      arith,
      length-take max_buf incoming,
      length-append got (replicate (max_buf + 1 - length got) 0),
      length-replicate {A = ℕ} (max_buf + 1 - length got) 0,
    )

mark_sent_inside :
    (sn : ℕ) (buf : Bytes)
    → sn < length buf
    → mark_sent (some sn) buf ≡ some (adjust sn (λ c. 0) buf)
unfolding mark_sent
mark_sent_inside sn buf h = ground (arith, h)

c_string-received :
    (incoming : Bytes) → c_string (received incoming) ≡ c_string (take max_buf incoming)
unfolding received
c_string-received incoming =
    c_string-zeros (take max_buf incoming) (max_buf + 1 - length (take max_buf incoming))

take-received :
    (sn : ℕ) (incoming : Bytes)
    → sn ≤ length (take max_buf incoming)
    → take sn (received incoming) ≡ take sn (take max_buf incoming)
unfolding received
take-received sn incoming h =
    take-append sn (take max_buf incoming)
      (replicate (max_buf + 1 - length (take max_buf incoming)) 0) h

-- If send takes no more than the bytes that it is given, then the end of the text is put inside the
-- buffer, and the texts that are printed are the bytes that recv gave and those that send took, up to a
-- zero among them.
pub print_message-inside :
    (incoming : Bytes) (sn : ℕ)
    → sn ≤ length (take max_buf incoming)
    → print_message incoming (some sn)
      ≡ some (c_string (take max_buf incoming), c_string (take sn (take max_buf incoming)))
unfolding print_message
print_message-inside incoming sn h =
    let inside : sn < length (received incoming) =
      omega (arith, h, length-received incoming, length-take max_buf incoming) in
    rw
      (
        print_message,
        mark_sent_inside sn (received incoming) inside,
        c_string-adjust sn (received incoming) inside,
        take-received sn incoming h,
        c_string-received incoming,
      )
      refl

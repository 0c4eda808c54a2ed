-- ===== src/NetworkCapture/Startup.antt =====
-- The mains of dev_examples/network_capture: src/custcap.c, example/sniffex.c and example/cap.c.
pub mod Checks
use test_code.Prelude.{
  ℕ, zero, suc, ◌+◌, ◌≤◌, ◌<◌, ◌≡◌, refl, arith, Bool, true, false, Bool-cases, inl, inr, Option,
  none, some, List, [], ◌∷◌, if◌then◌else◌, get_elem?, length,
}
use test_code.NetworkCapture.Dump.{Text}

-- What the calls of libpcap give; a handle is the device that it was opened for, of which `none` is
-- the null pointer.
pub record Pcap : Type 0 where
  pub lookupdev : Option Text
  pub lookupnet : Text → Option ℕ
  pub open_live : Option Text → Bool
  pub is_ethernet : Option Text → Bool
  pub compile : Option Text → Text → ℕ → Bool
  pub setfilter : Option Text → Text → Bool
  -- What the pointer `filter_exp` shows that has not been set; `none` where it cannot be followed.
  pub unset : Option Text

-- The status with which main returns or exits; a pointer that has not been set cannot be
-- followed; or pcap_loop
-- is called, on a device, with a filter that was compiled for a network.
pub data Main : Type 0 where
  returned : ℕ → Main
  undefined : Main
  looping : Option Text → Text → ℕ → Main

abbrev pub net_or_zero : Option ℕ → ℕ
net_or_zero none = 0
net_or_zero (some net) = net

-- What custcap.c and sniffex.c do with a device and a filter.
unfoldable pub capture_with : Pcap → Text → Text → Main
capture_with p dev filter_exp =
    let net = net_or_zero (p.lookupnet dev) in
    if p.open_live (some dev)
    then if p.is_ethernet (some dev)
      then if p.compile (some dev) filter_exp net
        then if p.setfilter (some dev) filter_exp
          then looping (some dev) filter_exp net
          else returned 1
        else returned 1
      else returned 1
    else returned 1

-- The filter of the command line, if there is one; else the program goes on with a pointer that has
-- not been set.
unfoldable pub capture : Pcap → Text → Option Text → Main
capture p dev none = elim p.unset [
  | none ↦ undefined
  | some filter_exp ↦ capture_with p dev filter_exp
]
capture p dev (some filter_exp) = capture_with p dev filter_exp

unfoldable pub custcap_main : Pcap → List Text → Main
custcap_main p [] = returned 1
custcap_main p (name ∷ []) = returned 1
custcap_main p (name ∷ dev ∷ rest) = capture p dev (get_elem? rest 0)

unfoldable pub sniffex_main : Pcap → List Text → Main
sniffex_main p (name ∷ dev ∷ rest) = capture p dev (get_elem? rest 0)
sniffex_main p argv = elim p.lookupdev [ none ↦ returned 1 | some dev ↦ capture p dev none ]

abbrev pub eth0 : Text
eth0 = b'e' ∷ b't' ∷ b'h' ∷ b'0' ∷ []

abbrev pub port_18600 : Text
port_18600 = b'p' ∷ b'o' ∷ b'r' ∷ b't' ∷ b' ' ∷ b'1' ∷ b'8' ∷ b'6' ∷ b'0' ∷ b'0' ∷ []

-- The network is looked up for `dev`, and the device that is opened is `device`.
unfoldable pub cap_main : Pcap → Main
cap_main p =
    let net = net_or_zero (p.lookupnet eth0) in
    if p.open_live none
    then if p.compile none port_18600 net
      then if p.setfilter none port_18600 then looping none port_18600 net else returned 2
      else returned 2
    else returned 2

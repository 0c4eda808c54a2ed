-- ===== src/NetworkCapture/Startup/Checks.antt =====
-- What the mains of custcap.c and sniffex.c in dev_examples/network_capture check.
use test_code.Prelude.{
  ◌≡◌, refl, true, Bool-cases, inl, inr, Option, none, some, List, [], ◌∷◌, get_elem?,
}
use test_code.NetworkCapture.Dump.{Text}
use test_code.NetworkCapture.Startup.{
  Pcap, Main, returned, undefined, looping, net_or_zero, capture_with, capture, custcap_main,
  sniffex_main,
}

-- A loop over the frames of an Ethernet device that is open, through a filter that is set.
abbrev pub Checked : Pcap → Main → Type 0
Checked p (returned status) = status ≡ 1
Checked p undefined = Unit
Checked p (looping dev filter_exp net) =
    (p.open_live dev ≡ true)
    × (p.is_ethernet dev ≡ true)
    × (p.compile dev filter_exp net ≡ true)
    × (p.setfilter dev filter_exp ≡ true)

capture_with-Checked : (p : Pcap) (dev f : Text) → Checked p (capture_with p dev f)
unfolding capture_with
capture_with-Checked p dev f = elim (Bool-cases (p.open_live (some dev))) [
  | inr e ↦ rw e refl
  | inl opened ↦ elim (Bool-cases (p.is_ethernet (some dev))) [
    | inr e ↦ rw (opened, e) refl
    | inl ethernet ↦ elim (Bool-cases (p.compile (some dev) f (net_or_zero (p.lookupnet dev)))) [
      | inr e ↦ rw (opened, ethernet, e) refl
      | inl compiled ↦ elim (Bool-cases (p.setfilter (some dev) f)) [
        | inr e ↦ rw (opened, ethernet, compiled, e) refl
        | inl set ↦ rw (opened, ethernet, compiled, set) (opened, ethernet, compiled, set)
      ]
    ]
  ]
]

capture-Checked :
    (p : Pcap) (dev : Text) (filter_exp : Option Text) → Checked p (capture p dev filter_exp)
unfolding capture
capture-Checked p dev none = go p.unset
  where
    go :
        (unset : Option Text)
        → Checked p (elim unset [ none ↦ undefined | some f ↦ capture_with p dev f ])
    go none = tt
    go (some f) = capture_with-Checked p dev f
capture-Checked p dev (some f) = capture_with-Checked p dev f

default-Checked :
    (p : Pcap) (default : Option Text)
    → Checked p (elim default [ none ↦ returned 1 | some dev ↦ capture p dev none ])
default-Checked p none = refl
default-Checked p (some dev) = capture-Checked p dev none

-- Of any arguments and whatever libpcap does, custcap and sniffex call pcap_loop only for an Ethernet
-- device that is open, with a filter that has been compiled and set; where they return before it, the
-- status is 1.
pub mains-Checked :
    (p : Pcap) (argv : List Text)
    → Checked p (custcap_main p argv) × Checked p (sniffex_main p argv)
unfolding custcap_main sniffex_main
mains-Checked p [] = (refl, default-Checked p p.lookupdev)
mains-Checked p (name ∷ []) = (refl, default-Checked p p.lookupdev)
mains-Checked p (name ∷ dev ∷ rest) =
    let checked = capture-Checked p dev (get_elem? rest 0) in (checked, checked)

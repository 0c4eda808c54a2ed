-- ===== src/CreateDirs/Made.antt =====
-- What lite_test/createdir_test/createdir_test.cpp leaves of a path.
use native.Mathlib.Decide.{ℕ_discrete}
use test_code.Prelude.{
  ℕ, zero, suc, ◌+◌, ◌-◌, ◌≤◌, ◌<◌, ◌≡◌, refl, sym, subst, ap, ◌∙◌, arith, true, Bool-cases, inl,
  inr, Option, none, some, [], ◌∷◌, ◌++◌, ltb, ◌==◌, get_elem?, get_elem?-inside, take, replicate,
  length, length-append, length-take, length-replicate,
}
use test_code.Wire.{Bytes}
use test_code.CreateDirs.{
  Fs, IsFs, buffer_size, dirname, Result, created, refused, outside, visit, create_from,
  create_dirs,
}

module _ {fs : Fs} (laws : IsFs fs) where
  -- All that there was is still there.
  abbrev pub Keeps : fs.State → fs.State → Type 0
  Keeps s s' = (x : Bytes) → fs.exists s x ≡ true → fs.exists s' x ≡ true

  -- The part of a path in front of each slash from one index up to another exists.
  abbrev pub Reaches : Bytes → ℕ → ℕ → fs.State → Type 0
  Reaches p i j s =
      (k : ℕ) → i ≤ k → k < j → get_elem? p k ≡ some 47 → fs.exists s (take k p) ≡ true

  -- A slash where mkdir refuses, behind parts that all exist.
  abbrev pub Refuses : Bytes → ℕ → ℕ → fs.State → Type 0
  Refuses p i j s =
      (k : ℕ) × (i ≤ k)
      × (k < j)
      × (get_elem? p k ≡ some 47)
      × (fs.mkdir s (take k p) ≡ none)
      × Reaches p i k s

  abbrev pub Made : Bytes → ℕ → ℕ → fs.State → Result fs → Type 0
  Made p i j s (created s') = Keeps s s' × Reaches p i j s'
  Made p i j s (refused s') = Keeps s s' × Refuses p i j s'
  Made p i j s outside = ⊥

  abbrev Visited : ℕ → Bytes → fs.State → Option fs.State → Type 0
  Visited c path s none = (c ≡ 47) × (fs.mkdir s path ≡ none)
  Visited c path s (some s') = Keeps s s' × (c ≡ 47 → fs.exists s' path ≡ true)

  visit-Visited : (c : ℕ) (path : Bytes) (s : fs.State) → Visited c path s (visit fs c path s)
  unfolding visit
  visit-Visited c path s = elim (Bool-cases (c == 47)) [
    | inr other ↦ rw other (λ x h. h, λ e. absurd (ground (arith, other, e)))
    | inl slash ↦ elim (Bool-cases (fs.access s path)) [
      | inl there ↦ rw (slash, there) (λ x h. h, λ e. laws.access-exists s path there)
      | inr missing ↦ rw (slash, missing) (go (fs.mkdir s path) refl (ground (arith, slash)))
    ]
  ]
    where
      go : (r : Option fs.State) → fs.mkdir s path ≡ r → c ≡ 47 → Visited c path s r
      go none e k = (k, e)
      go (some s') e k =
          (λ x h. laws.mkdir_keeps s s' path x e h, λ q. laws.mkdir-exists s s' path e)

  one_more :
      (c i j : ℕ) (p : Bytes) (s s1 s' : fs.State)
      → get_elem? p i ≡ some c
      → Visited c (take i p) s (some s1)
      → Keeps s1 s'
      → Reaches p (suc i) j s'
      → Reaches p i j s'
  one_more c i j p s s1 s' found v keeps reaches k a b e = elim (ℕ_discrete i k) [
    | yes same ↦
        let slash : c ≡ 47 = let e' = subst (λ m. get_elem? p m ≡ some 47) (sym same) e in cc in
        subst (λ m. fs.exists s' (take m p) ≡ true) same (keeps (take i p) (v.1 slash))
    | no other ↦ reaches k (omega (arith, a, other)) b e
  ]

  -- One round more, in front of what the others come to.
  in_front :
      (c i j : ℕ) (p : Bytes) (s s1 : fs.State) (r : Result fs)
      → get_elem? p i ≡ some c
      → Visited c (take i p) s (some s1)
      → Made p (suc i) j s1 r
      → Made p i j s r
  in_front c i j p s s1 outside found v m = m
  in_front c i j p s s1 (created s') found v (keeps, reaches) =
      (λ x h. keeps x (v.0 x h), one_more c i j p s s1 s' found v keeps reaches)
  in_front c i j p s s1 (refused s') found v (keeps, (k, h, l, slash, refusal, reaches)) = (
    λ x h. keeps x (v.0 x h),
    (k, omega (arith, h), l, slash, refusal, one_more c i k p s s1 s' found v keeps reaches),
  )

  create_from-Made :
      (left i : ℕ) (p : Bytes) (s : fs.State)
      → i + left ≤ length p
      → Made p i (i + left) s (create_from fs left i p s)
  unfolding create_from
  create_from-Made zero i p s h = (λ x k. k, λ k a b e. absurd (omega (arith, a, b)))
  create_from-Made (suc left) i p s h =
      let (c, found) = get_elem?-inside p i (omega (arith, h)) in
      rw (found, create_from)
        (go c found (visit fs c (take i p) s) (visit-Visited c (take i p) s) (λ s1.
          subst (λ j. Made p (suc i) j s1 (create_from fs left (suc i) p s1)) (omega arith)
            (create_from-Made left (suc i) p s1 (omega (arith, h)))))
    where
      go :
          (c : ℕ)
          → get_elem? p i ≡ some c
          → (v : Option fs.State) → Visited c (take i p) s v
          → ((s1 : fs.State) → Made p (suc i) (i + suc left) s1 (create_from fs left (suc i) p s1))
          → Made p i
              (i + suc left)
              s
              (elim v [ none ↦ refused s | some s' ↦ create_from fs left (suc i) p s' ])
      go c found none v ih = (
        λ x k. k,
        (
          i,
          omega arith,
          omega arith,
          found ∙ ap some (v.0),
          v.1,
          λ k a b e. absurd (omega (arith, a, b)),
        ),
      )
      go c found (some s1) v ih = in_front c i (i + suc left) p s s1 _ found v (ih s1)

-- In the buffer, what stands in front of its end is the path.
get_elem?-buffer :
    (n k : ℕ) (p z : Bytes)
    → k < length p
    → length p ≤ n
    → get_elem? (take n (p ++ z)) k ≡ get_elem? p k
get_elem?-buffer n k [] z h l = absurd (omega arith)
get_elem?-buffer zero k (x ∷ p) z h l = absurd (omega arith)
get_elem?-buffer (suc n) zero (x ∷ p) z h l = refl
get_elem?-buffer (suc n) (suc k) (x ∷ p) z h l =
    get_elem?-buffer n k p z (omega arith) (omega arith)

take-buffer :
    (n k : ℕ) (p z : Bytes) → k ≤ length p → length p ≤ n → take k (take n (p ++ z)) ≡ take k p
take-buffer n zero p z h l = refl
take-buffer n (suc k) [] z h l = absurd (omega arith)
take-buffer zero (suc k) (x ∷ p) z h l = absurd (omega arith)
take-buffer (suc n) (suc k) (x ∷ p) z h l =
    ap (◌∷◌ x) (take-buffer n k p z (omega arith) (omega arith))

length-dirname : (p : Bytes) → length (dirname p) ≡ buffer_size
unfolding dirname
length-dirname p = omega (
  arith,
  length-take 2048 (p ++ replicate 2048 0),
  length-append p (replicate 2048 0),
  length-replicate {A = ℕ} 2048 0,
)

get_elem?-dirname :
    (p : Bytes) (k : ℕ)
    → length p ≤ buffer_size
    → k < length p
    → get_elem? (dirname p) k ≡ get_elem? p k
unfolding dirname
get_elem?-dirname p k l h = get_elem?-buffer buffer_size k p (replicate buffer_size 0) h l

take-dirname :
    (p : Bytes) (k : ℕ) → length p ≤ buffer_size → k < length p → take k (dirname p) ≡ take k p
unfolding dirname
take-dirname p k l h = take-buffer buffer_size k p (replicate buffer_size 0) (omega (arith, h)) l

module _ {fs : Fs} (laws : IsFs fs) (p : Bytes) (fits : length p ≤ 2048) where
  Reaches-path :
      (i j : ℕ) (s : fs.State)
      → j ≤ length p
      → Reaches laws (dirname p) i j s
      → Reaches laws p i j s
  Reaches-path i j s l r k a b e =
      let at_k = get_elem?-dirname p k fits (omega (arith, b, l)) in
      let front = take-dirname p k fits (omega (arith, b, l)) in
      subst (λ d. fs.exists s d ≡ true) front (r k a b (at_k ∙ e))

  Made-path :
      (i j : ℕ) (s : fs.State) (r : Result fs)
      → j ≤ length p
      → Made laws (dirname p) i j s r
      → Made laws p i j s r
  Made-path i j s (created s') l (keeps, r) = (keeps, Reaches-path i j s' l r)
  Made-path i j s (refused s') l (keeps, (k, a, b, slash, refusal, r)) =
      let at_k = get_elem?-dirname p k fits (omega (arith, b, l)) in
      let front = take-dirname p k fits (omega (arith, b, l)) in
      (
        keeps,
        (
          k,
          a,
          b,
          sym at_k ∙ slash,
          subst (λ d. fs.mkdir s' d ≡ none) front refusal,
          Reaches-path i k s' (omega (arith, b)) r,
        ),
      )
  Made-path i j s outside l m = m

  -- Of a path of at most 2048 characters, only the buffer is read, and nothing that exists is lost.
  -- Where `CreateDirs` returns 0, the part in front of every slash but a first exists afterwards; where
  -- it returns -1, it has stopped at a slash for whose part mkdir fails, and the parts in front of the
  -- slashes before that one exist.
  pub create_dirs-Made : (s : fs.State) → Made laws p 1 (length p) s (create_dirs fs p (length p) s)
  unfolding create_dirs
  create_dirs-Made s = elim (Bool-cases (ltb (length p) 2)) [
    | inl short ↦
        rw (short, create_dirs) (λ x h. h, λ k a b e. absurd (ground (arith, short, a, b)))
    | inr long ↦
        let some_rounds : 2 ≤ length p = ground (arith, long) in
        let all : 1 + (length p - 1) ≡ length p = omega (arith, some_rounds) in
        let made =
          create_from-Made laws (length p - 1) 1 (dirname p) s
            (omega (arith, length-dirname p, fits, some_rounds)) in
        rw (long, create_dirs)
          (Made-path 1 (length p) s _ (omega arith) (
            subst (λ j. Made laws (dirname p) 1 j s (create_from fs (length p - 1) 1 (dirname p) s))
              all made))
  ]

-- ===== src/ProcTitle/Kept.antt =====
-- What lite_test/setproctitle/main.cpp keeps of the arguments and the environment.
use test_code.Prelude.{
  ℕ, suc, ◌+◌, ◌≤◌, ◌≡◌, refl, sym, ap, ap₂, ◌∙◌, arith, All, ◌-◌, Bool, true, false, Bool-cases,
  inl, inr, Option, none, some, List, [], ◌∷◌, ◌++◌, map, ltb, leb, if◌then◌else◌, length,
  length-take, take, drop, drop-length,
}
use test_code.Wire.{Bytes}
use test_code.NetworkCapture.Dump.Rows.{drop-drop}
use test_code.ProcTitle.{
  Pointer, null, at_offset, copied, Process, until_0, text, duplicate, duplicate_from, write_at,
  setproramtitle,
}

-- What a write that stays inside leaves.
written :
    (memory memory' d : Bytes) (n : ℕ)
    → write_at memory n d ≡ some memory'
    → (n + length d ≤ length memory)
      × (take n memory ++ (d ++ drop (n + length d) memory) ≡ memory')
unfolding write_at
written memory memory' d n e = elim (Bool-cases (ltb (length memory) (n + length d))) [
  | inl behind ↦ absurd (let h = rw behind at e in cc)
  | inr inside ↦ (ground (arith, inside), let h = rw inside at e in cc)
]

at_write :
    (memory memory' d : Bytes) (n : ℕ)
    → write_at memory n d ≡ some memory'
    → drop n memory' ≡ d ++ drop (n + length d) memory
at_write memory memory' d n e =
    let (inside, same) = written memory memory' d n e in
    let front : n ≡ length (take n memory) = omega (arith, length-take n memory, inside) in
    ap (drop n) (sym same)
    ∙ ap (λ m. drop m (take n memory ++ (d ++ drop (n + length d) memory))) front
    ∙ drop-length (take n memory) (d ++ drop (n + length d) memory)

behind_write :
    (memory memory' d : Bytes) (n k : ℕ)
    → write_at memory n d ≡ some memory'
    → n + length d ≤ k
    → drop k memory' ≡ drop k memory
behind_write memory memory' d n k e h =
    let rest = drop (n + length d) memory in
    let start : drop (n + length d) memory' ≡ rest =
      sym (drop-drop n (length d) memory')
      ∙ ap (drop (length d)) (at_write memory memory' d n e)
      ∙ drop-length d rest in
    let far : k ≡ n + length d + (k - (n + length d)) = omega (arith, h) in
    ap (λ m. drop m memory') far
    ∙ sym (drop-drop (n + length d) (k - (n + length d)) memory')
    ∙ ap (drop (k - (n + length d))) start
    ∙ drop-drop (n + length d) (k - (n + length d)) memory
    ∙ sym (ap (λ m. drop m memory) far)

-- The strings of the arguments after the copies, from an index on: where there is no memory for one,
-- its pointer is null.
abbrev pub kept : (ℕ → Bool) → ℕ → List (Option Bytes) → List (Option Bytes)
kept strdup i [] = []
kept strdup i (t ∷ ts) = (if strdup i then t else none) ∷ kept strdup (suc i) ts

abbrev pub Points : Pointer → Type 0
Points null = ⊥
Points (at_offset n) = Unit
Points (copied d) = Unit

-- The copies, which read the same whatever the memory becomes.
Copied : (ℕ → Bool) → ℕ → Bytes → Bytes → List Pointer → Type 0
Copied strdup i memory memory' ps =
    (qs : List Pointer) × (duplicate_from strdup i memory ps ≡ some qs)
    × (map (text memory') qs ≡ kept strdup i (map (text memory) ps))

duplicate-text :
    (room : Bool) (memory memory' : Bytes) (p : Pointer)
    → Points p
    → (q : Pointer) × (duplicate room memory p ≡ some q)
      × (text memory' q ≡ (if room then text memory p else none))
unfolding duplicate text
duplicate-text room memory memory' null h = absurd h
duplicate-text true memory memory' (at_offset n) h = (copied (until_0 (drop n memory)), refl, refl)
duplicate-text false memory memory' (at_offset n) h = (null, refl, refl)
duplicate-text true memory memory' (copied d) h = (copied d, refl, refl)
duplicate-text false memory memory' (copied d) h = (null, refl, refl)

copies :
    (strdup : ℕ → Bool) (i : ℕ) (memory memory' : Bytes) (ps : List Pointer)
    → All Points ps
    → Copied strdup i memory memory' ps
unfolding Copied duplicate_from
copies strdup i memory memory' [] h = ([], refl, refl)
copies strdup i memory memory' (p ∷ ps) h =
    let (q, e, t) = duplicate-text (strdup i) memory memory' p h.0 in
    let (qs, es, ts) = copies strdup (suc i) memory memory' ps h.1 in
    (q ∷ qs, rw (duplicate_from, e, es) refl, ap₂ (λ x xs. x ∷ xs) t ts)

-- A pointer to what stands at an offset or behind it, or to a copy, or null.
abbrev pub is_behind : ℕ → Pointer → Bool
is_behind n null = true
is_behind n (at_offset k) = leb n k
is_behind n (copied d) = true

abbrev pub behind : ℕ → List Pointer → List Pointer
behind n [] = []
behind n (p ∷ ps) = if is_behind n p then p ∷ behind n ps else behind n ps

same_text :
    (memory memory' d : Bytes) (n : ℕ) (p : Pointer)
    → write_at memory n d ≡ some memory'
    → is_behind (n + length d) p ≡ true
    → text memory' p ≡ text memory p
unfolding text
same_text memory memory' d n null e h = refl
same_text memory memory' d n (at_offset k) e h =
    ap (λ m. some (until_0 m)) (behind_write memory memory' d n k e (ground (arith, h)))
same_text memory memory' d n (copied c) e h = refl

same_texts :
    (memory memory' d : Bytes) (n : ℕ) (ps : List Pointer)
    → write_at memory n d ≡ some memory'
    → map (text memory') (behind (n + length d) ps) ≡ map (text memory) (behind (n + length d) ps)
same_texts memory memory' d n [] e = refl
same_texts memory memory' d n (p ∷ ps) e = elim (Bool-cases (is_behind (n + length d) p)) [
  | inl far ↦ rw far (
      ap₂ (λ x xs. x ∷ xs) (same_text memory memory' d n p e far)
        (same_texts memory memory' d n ps e))
  | inr near ↦ rw near (same_texts memory memory' d n ps e)
]

-- A process with its title, beside the one without: the strings of the others, of the first argument
-- and of the environment behind the title.
abbrev pub Titled : (ℕ → Bool) → Process → Bytes → ℕ → List Pointer → Process → Type 0
Titled strdup p newtitle n others p' =
    (copies_of : List Pointer) × (p'.argv ≡ at_offset n ∷ copies_of)
    × (map (text p'.memory) copies_of ≡ kept strdup 1 (map (text p.memory) others))
    × (text p'.memory (at_offset n)
        ≡ some (until_0 (newtitle ++ drop (n + length newtitle) p.memory)))
    × (p'.environ ≡ p.environ)
    × (map (text p'.memory) (behind (n + length newtitle) p.environ)
        ≡ map (text p.memory) (behind (n + length newtitle) p.environ))

written_at :
    (memory d : Bytes) (n : ℕ)
    → n + length d ≤ length memory
    → write_at memory n d ≡ some (take n memory ++ (d ++ drop (n + length d) memory))
unfolding write_at
written_at memory d n h =
    let inside : ltb (length memory) (n + length d) ≡ false = ground (arith, h) in rw inside refl

-- Where the title fits into the memory behind the start of the first argument, `setproramtitle`
-- returns. The other arguments read as before, but where strdup fails, their pointers are null. The
-- first one reads as the title and then, if that has no 0 in it, what the memory has behind it, up to
-- a 0. The pointers of the environment are as before, and those to strings that start behind the title
-- show the same strings.
pub setproramtitle-kept :
    (strdup : ℕ → Bool) (p : Process) (newtitle : Bytes) (n : ℕ) (others : List Pointer)
    → p.argv ≡ at_offset n ∷ others
    → All Points others
    → n + length newtitle ≤ length p.memory
    → (p' : Process) × (setproramtitle strdup p newtitle ≡ some p')
      × Titled strdup p newtitle n others p'
unfolding Copied setproramtitle
setproramtitle-kept strdup p newtitle n others argv points fits =
    let memory = take n p.memory ++ (newtitle ++ drop (n + length newtitle) p.memory) in
    let w = written_at p.memory newtitle n fits in
    let (qs, e, same) = copies strdup 1 p.memory memory others points in
    (
      record { memory = memory; argv = at_offset n ∷ qs; environ = p.environ },
      rw (setproramtitle, argv, e, w) refl,
      (
        qs,
        refl,
        same,
        unfold text in ap (λ m. some (until_0 m)) (at_write p.memory memory newtitle n w),
        refl,
        same_texts p.memory memory newtitle n p.environ w,
      ),
    )

-- ===== src/ProcTitle.antt =====
-- lite_test/setproctitle/main.cpp: a title over the arguments of a process, in memory.
pub mod Kept
use test_code.Prelude.{
  ℕ, suc, ◌+◌, Bool, Option, none, some, List, [], ◌∷◌, ◌++◌, ltb, ◌==◌, if◌then◌else◌, length,
  take, drop,
}
use test_code.Wire.{Bytes}

-- A pointer to the characters at an offset of the memory in which the process finds its arguments and
-- its environment, or to a copy that strdup has made, or the null pointer.
pub data Pointer : Type 0 where
  null : Pointer
  at_offset : ℕ → Pointer
  copied : Bytes → Pointer

pub record Process : Type 0 where
  pub memory : Bytes
  pub argv : List Pointer
  pub environ : List Pointer

-- The characters up to the first 0.
unfoldable pub until_0 : Bytes → Bytes
until_0 [] = []
until_0 (c ∷ cs) = let rest = until_0 cs in if c == 0 then [] else c ∷ rest

-- The string that a pointer points to, if it is not null.
unfoldable pub text : Bytes → Pointer → Option Bytes
text memory null = none
text memory (at_offset n) = some (until_0 (drop n memory))
text memory (copied d) = some d

-- `strdup`, with whether there is memory for the copy; `none` where it reads from null.
unfoldable pub duplicate : Bool → Bytes → Pointer → Option Pointer
duplicate room memory a = elim (text memory a) [
  | none ↦ none
  | some d ↦ some (if room then copied d else null)
]

-- `for(int i=1;i<argc;i++)`, from an index on, with the calls of strdup for which there is memory.
unfoldable pub duplicate_from : (ℕ → Bool) → ℕ → Bytes → List Pointer → Option (List Pointer)
duplicate_from strdup i memory [] = some []
duplicate_from strdup i memory (a ∷ others) = elim (duplicate (strdup i) memory a) [
  | none ↦ none
  | some copy ↦ elim (duplicate_from strdup (suc i) memory others) [
    | none ↦ none
    | some copies ↦ some (copy ∷ copies)
  ]
]

-- `memcpy` to an offset; `none` where it writes behind the memory.
unfoldable pub write_at : Bytes → ℕ → Bytes → Option Bytes
write_at memory n d =
    if ltb (length memory) (n + length d)
    then none
    else some (take n memory ++ (d ++ drop (n + length d) memory))

-- `none` where it writes behind the memory, or where there is no first argument in it.
unfoldable pub setproramtitle : (ℕ → Bool) → Process → Bytes → Option Process
setproramtitle strdup p newtitle = elim p.argv [
  | [] ↦ none
  | null ∷ others ↦ none
  | copied d ∷ others ↦ none
  | at_offset n ∷ others ↦ elim (duplicate_from strdup 1 p.memory others) [
    | none ↦ none
    | some copies ↦ elim (write_at p.memory n newtitle) [
      | none ↦ none
      | some memory ↦
          some (record { memory = memory; argv = at_offset n ∷ copies; environ = p.environ })
    ]
  ]
]

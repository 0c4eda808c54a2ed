-- ===== src/CreateDirs.antt =====
-- lite_test/createdir_test/createdir_test.cpp: the directories on the way to a path.
pub mod Made
use test_code.Prelude.{
  ℕ, zero, suc, ◌+◌, ◌-◌, ◌≡◌, Bool, true, Option, none, some, List, ◌++◌, ltb, ◌==◌, if◌then◌else◌,
  get_elem?, take, replicate, length,
}
use test_code.Wire.{Bytes}

-- The file system: what exists in it, whether `access` returns 0, and what `mkdir` leaves if it does
-- not return -1.
pub record Fs : Type 1 where
  pub State : Type 0
  pub exists : State → Bytes → Bool
  pub access : State → Bytes → Bool
  pub mkdir : State → Bytes → Option State

-- What can be accessed exists, and so does what has just been made; it may be that the process cannot
-- read it. `mkdir` removes nothing.
pub record IsFs (fs : Fs) : Type 0 where
  pub access-exists : (s : fs.State) (d : Bytes) → fs.access s d ≡ true → fs.exists s d ≡ true
  pub mkdir-exists : (s s' : fs.State) (d : Bytes) → fs.mkdir s d ≡ some s' → fs.exists s' d ≡ true
  pub mkdir_keeps :
      (s s' : fs.State) (d x : Bytes)
      → fs.mkdir s d ≡ some s'
      → fs.exists s x ≡ true
      → fs.exists s' x ≡ true

abbrev pub buffer_size : ℕ
buffer_size = 2048

-- `strncpy` fills what is left with 0.
unfoldable pub dirname : Bytes → Bytes
dirname dir = take buffer_size (dir ++ replicate buffer_size 0)

-- `CreateDirs` returns 0, or -1, or it reads behind `dirname`.
pub data Result (fs : Fs) : Type 0 where
  created : fs.State → Result fs
  refused : fs.State → Result fs
  outside : Result fs

module _ (fs : Fs) where
  -- The body of the loop, for the character at an index and the characters in front of it; `none` where
  -- mkdir returns -1.
  unfoldable pub visit : ℕ → Bytes → fs.State → Option fs.State
  visit c path s = if c == 47 then if fs.access s path then some s else fs.mkdir s path else some s

  -- `for(unsigned i=1;i<len;i++)`, from an index on.
  unfoldable pub create_from : ℕ → ℕ → Bytes → fs.State → Result fs
  create_from zero i buf s = created s
  create_from (suc left) i buf s = elim (get_elem? buf i) [
    | none ↦ outside
    | some c ↦ elim (visit c (take i buf) s) [
      | none ↦ refused s
      | some s' ↦ create_from left (suc i) buf s'
    ]
  ]

  unfoldable pub create_dirs : Bytes → ℕ → fs.State → Result fs
  create_dirs dir len s = if ltb len 2 then created s else create_from (len - 1) 1 (dirname dir) s

  -- `main`, of which `none` stands for no argument.
  unfoldable pub create_main : Option Bytes → fs.State → Result fs
  create_main none s = created s
  create_main (some path) s = create_dirs path (length path) s

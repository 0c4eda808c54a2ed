-- ===== src/Tests/Dirs.antt =====
-- lite_test/createdir_test/createdir_test.cpp on a file system that is a list of its directories.
use test_code.Prelude.{
  ◌≡◌, refl, subst, arith, Bool, true, false, Bool-cases, inl, inr, none, some, List, [], ◌∷◌, ◌==◌,
  if◌then◌else◌, length, take,
}
use test_code.Wire.{Bytes}
use test_code.Text.{same_text, same_text_refl}
use test_code.CreateDirs.{Fs, IsFs, created, dirname, visit, create_from, create_dirs, create_main}
use test_code.CreateDirs.Made.{Made, create_dirs-Made}

among : List Bytes → Bytes → Bool
among [] x = false
among (d ∷ ds) x = if same_text d x then true else among ds x

-- A directory that the process cannot read, though it can make it.
abbrev root_only : Bytes
root_only = 47 ∷ b'r' ∷ []

-- Nothing can be made in a full file system of 3 directories.
abbrev list_fs : Fs
list_fs = record {
  State = List Bytes;
  exists = among;
  access = λ s d. if same_text d root_only then false else among s d;
  mkdir = λ s d. if length s == 3 then none else some (d ∷ s);
}

among_first : (s : List Bytes) (d : Bytes) → among (d ∷ s) d ≡ true
unfolding among
among_first s d = rw (same_text_refl d) refl

among_more : (s : List Bytes) (d x : Bytes) → among s x ≡ true → among (d ∷ s) x ≡ true
unfolding among
among_more s d x h = elim (Bool-cases (same_text d x)) [ inl e ↦ rw e refl | inr e ↦ rw e h ]

list_fs-IsFs : IsFs list_fs
list_fs-IsFs = record {
  access-exists = λ s d h. elim (Bool-cases (same_text d root_only)) [
    | inl e ↦ absurd (let h' = rw e at h in cc)
    | inr e ↦ rw e at h
  ];
  mkdir-exists = λ s s' d e. elim (Bool-cases (length s == 3)) [
    | inl full ↦ absurd (let h = rw full at e in cc)
    | inr room ↦
        let same : d ∷ s ≡ s' = (let h = rw room at e in cc) in
        subst (λ t. among t d ≡ true) same (among_first s d)
  ];
  mkdir_keeps = λ s s' d x e h. elim (Bool-cases (length s == 3)) [
    | inl full ↦ absurd (let h = rw full at e in cc)
    | inr room ↦
        let same : d ∷ s ≡ s' = (let h = rw room at e in cc) in
        subst (λ t. among t x ≡ true) same (among_more s d x h)
  ];
}

-- /a/b/
abbrev path : Bytes
path = 47 ∷ b'a' ∷ 47 ∷ b'b' ∷ 47 ∷ []

two_made : create_main list_fs (some path) [] ≡ created (take 4 path ∷ take 2 path ∷ [])
unfolding create_main create_dirs create_from visit dirname among same_text
two_made = refl

create_dirs-Made_example :
    Made list_fs-IsFs path 1 (length path) [] (create_dirs list_fs path (length path) [])
create_dirs-Made_example = create_dirs-Made list_fs-IsFs path (omega arith) []

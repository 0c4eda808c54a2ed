-- ===== src/Tests/Title.antt =====
-- lite_test/setproctitle/main.cpp on a small memory.
use test_code.Prelude.{ℕ, ◌≡◌, refl, arith, Bool, some, [], ◌∷◌, ◌++◌, ◌==◌}
use test_code.Wire.{Bytes}
use test_code.ProcTitle.{
  Pointer, null, at_offset, Process, until_0, text, duplicate, duplicate_from, write_at,
  setproramtitle,
}
use test_code.ProcTitle.Kept.{Titled, setproramtitle-kept}

-- The arguments ./main, a and b, and the environment X=1, with a pointer that is not behind
-- the title, too.
abbrev process : Process
process = record {
  memory =
      b'.' ∷ 47 ∷ b'm' ∷ b'a' ∷ b'i' ∷ b'n' ∷ 0 ∷ b'a' ∷ 0 ∷ b'b' ∷ 0 ∷ b'X' ∷ b'=' ∷ b'1' ∷ 0 ∷ [];
  argv = at_offset 0 ∷ at_offset 7 ∷ at_offset 9 ∷ [];
  environ = at_offset 11 ∷ at_offset 3 ∷ [];
}

abbrev title : Bytes
title = b't' ∷ b'i' ∷ b't' ∷ b'l' ∷ b'e' ∷ b' ' ∷ b'1' ∷ []

-- There is no memory for the copy of the last argument.
abbrev strdup : ℕ → Bool
strdup i = i == 1

abbrev titled : Process
titled = record {
  memory =
      b't' ∷ b'i' ∷ b't' ∷ b'l' ∷ b'e' ∷ b' ' ∷ b'1' ∷ b'a' ∷ 0 ∷ b'b' ∷ 0 ∷ b'X' ∷ b'=' ∷ b'1' ∷ 0
      ∷ [];
  argv = at_offset 0 ∷ Pointer.copied (b'a' ∷ []) ∷ null ∷ [];
  environ = at_offset 11 ∷ at_offset 3 ∷ [];
}

titled_result : setproramtitle strdup process title ≡ some titled
unfolding setproramtitle duplicate_from duplicate write_at text until_0
titled_result = refl

-- The title is not ended by a 0: the process is called `title 1a`.
not_ended : text (titled.memory) (at_offset 0) ≡ some (title ++ b'a' ∷ [])
unfolding text until_0
not_ended = refl

setproramtitle-kept_example :
    (p' : Process) × (setproramtitle strdup process title ≡ some p')
    × Titled strdup process title 0 (at_offset 7 ∷ at_offset 9 ∷ []) p'
setproramtitle-kept_example =
    setproramtitle-kept strdup process title 0 (at_offset 7 ∷ at_offset 9 ∷ []) refl (tt, (tt, tt))
      (omega arith)

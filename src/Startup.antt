-- ===== src/Startup.antt =====
-- What the mains of the libevent servers do before their event loop.
use test_code.Prelude.{ℕ, Bool, if◌then◌else◌}

-- Whether the calls of sigaction, event_base_new, bind and listen succeed.
pub record Calls : Type 0 where
  pub sigaction : Bool
  pub base : Bool
  pub bind : Bool
  pub listen : Bool

-- The status with which main returns or exits before its event loop, or what the loop comes to.
pub data Main (A : Type 0) : Type 0 where
  returned : ℕ → Main A
  served : A → Main A

-- The socket calls, in the order of the source.
abbrev pub listening : {A : Type 0} → Calls → A → Main A
listening calls a = if calls.bind then if calls.listen then served a else returned 0 else returned 0

-- ===== src/Threads/Tracing.antt =====
-- The steps of a run, as a run of `StartClient` (src/ClientMod.cpp) makes them one after the other.
use wire_send.Common.{◌⊎◌}
use wire_send.Threads.{Threads, Program, Step, Reach, start, later}

module _ {S : Type 0} (P : Program S) (s : S) where
  -- Some step of the run, with the states around it.
  unfoldable pub SomeStep :
      (C : (q q' : Threads S) → Step P q q' → Type 0) (q : Threads S) → Reach P s q → Type 0
  SomeStep C q start = ⊥
  SomeStep C q (later {q = q₀} r st) = SomeStep C q₀ r ⊎ C q₀ q st

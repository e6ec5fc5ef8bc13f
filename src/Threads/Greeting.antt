-- ===== src/Threads/Greeting.antt =====
-- The two threads of a server: `StartServer` (src/ServerMod.cpp) creates the receiving thread, then
-- greets the client, and then comes to its input loop.
use wire_send.Common.{ℕ, ◌≡◌, refl, sym, subst, ap, ◌∙◌, Bool, true, false, ◌⊎◌}
use wire_send.Threads.{
  Threads, Program, at_while, reading, Step, Reach, start, later, IsKept, Step-kept,
}
use wire_send.Threads.Joining.{NeverJoins, is_joined, Step-unjoined}

module _ {S : Type 0} (P : Program S) (greet : ℕ → S → S) where
  -- `Run s greeted q`: from `s` the threads reach `q`, and `greeted` says whether the greeting is
  -- behind them. Before it only the receiving thread and the world outside do steps, since the
  -- other thread has not come to its loop. The number is what a control byte that is not set
  -- happens to be.
  pub data Run (s : S) : Bool → Threads S → Type 0 where
    created : Run s false (record { state = s; input = at_while; recv = reading })
    before : {q q' : Threads S} → Run s false q → Step P q q' → q'.input ≡ at_while → Run s false q'
    greets :
        {q q' : Threads S} (ctl : ℕ)
        → Run s false q
        → q' ≡ record q { state = greet ctl q.state }
        → Run s true q'
    after : {q q' : Threads S} → Run s true q → Step P q q' → Run s true q'

  -- The receiving thread may do nothing before the greeting.
  pub Reach-Run : (ctl : ℕ) (s : S) (q : Threads S) → Reach P (greet ctl s) q → Run s true q
  Reach-Run ctl s q start = greets ctl created refl
  Reach-Run ctl s q (later {q = q₀} r st) = after (Reach-Run ctl s q₀ r) st

  -- Some step of the run, with the states around it.
  unfoldable pub SomeStep :
      (s : S) (C : (q q' : Threads S) → Step P q q' → Type 0) (greeted : Bool) (q : Threads S)
      → Run s greeted q
      → Type 0
  SomeStep s C greeted q created = ⊥
  SomeStep s C greeted q (before {q = q₀} r st at) = SomeStep s C false q₀ r ⊎ C q₀ q st
  SomeStep s C greeted q (greets {q = q₀} ctl r same) = SomeStep s C false q₀ r
  SomeStep s C greeted q (after {q = q₀} r st) = SomeStep s C true q₀ r ⊎ C q₀ q st

module _ {S : Type 0} (P : Program S) (greet : ℕ → S → S) (s : S) where
  -- What every call and the greeting keep holds in every state that the threads reach.
  pub Run-kept :
      (I : S → Type 0)
      → IsKept P I
      → ((ctl : ℕ) (v : S) → I v → I (greet ctl v))
      → I s
      → (greeted : Bool) (q : Threads S) → Run P greet s greeted q
      → I q.state
  Run-kept I kept greeting i greeted q created = i
  Run-kept I kept greeting i greeted q (before {q = q₀} r st at) =
      Step-kept P I kept q₀ q st (Run-kept I kept greeting i false q₀ r)
  Run-kept I kept greeting i greeted q (greets {q = q₀} ctl r same) =
      subst (λ x. I x.state) (sym same)
        (greeting ctl q₀.state (Run-kept I kept greeting i false q₀ r))
  Run-kept I kept greeting i greeted q (after {q = q₀} r st) =
      Step-kept P I kept q₀ q st (Run-kept I kept greeting i true q₀ r)

  pub Run-unjoined :
      NeverJoins P
      → (greeted : Bool) (q : Threads S) → Run P greet s greeted q
      → is_joined q.input ≡ false
  Run-unjoined never greeted q created = refl
  Run-unjoined never greeted q (before {q = q₀} r st at) =
      Step-unjoined P never q₀ q st (Run-unjoined never false q₀ r)
  Run-unjoined never greeted q (greets {q = q₀} ctl r same) =
      ap (λ x. is_joined x.input) same ∙ Run-unjoined never false q₀ r
  Run-unjoined never greeted q (after {q = q₀} r st) =
      Step-unjoined P never q₀ q st (Run-unjoined never true q₀ r)

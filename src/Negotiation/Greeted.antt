-- ===== src/Negotiation/Greeted.antt =====
-- How often the calls of a server's run open a negotiation, see it accepted, and send the file.
use wire_send.Common.{ℕ, ◌+◌, ◌≤◌, ◌≡◌, refl, ap, ◌∙◌, Bool, true, false, arith}
use wire_send.Negotiation.{Talk, quiet, Move, nothing}
use wire_send.Negotiation.Runs.{rises, bit, Move-rises, rises-falls}
use wire_send.Threads.{Threads, Program, Step}
use wire_send.Threads.Greeting.{Run, created, before, greets, after}

-- What a step counts: that it opens a negotiation, that from it on a file is to be sent, and that
-- from it on it is no longer.
abbrev pub opens : Talk → Talk → ℕ
opens t t' = rises t.asked t'.asked

abbrev pub begins : Talk → Talk → ℕ
begins t t' = rises t.sending t'.sending

abbrev pub ends : Talk → Talk → ℕ
ends t t' = rises t'.sending t.sending

module _ {S : Type 0} (P : Program S) (greet : ℕ → S → S) (talk : S → Talk) (s : S) where
  -- The sum of what the steps of a run count.
  unfoldable pub counted :
      (Talk → Talk → ℕ) → (greeted : Bool) (q : Threads S) → Run P greet s greeted q → ℕ
  counted f greeted q created = 0
  counted f greeted q (before {q = q₀} r st at) =
      counted f false q₀ r + f (talk q₀.state) (talk q.state)
  counted f greeted q (greets {q = q₀} ctl r same) =
      counted f false q₀ r + f (talk q₀.state) (talk q.state)
  counted f greeted q (after {q = q₀} r st) = counted f true q₀ r + f (talk q₀.state) (talk q.state)

module _ {S : Type 0} (P : Program S) (greet : ℕ → S → S) (talk : S → Talk) (s : S) where
  files-balance :
      (greeted : Bool) (q : Threads S) (r : Run P greet s greeted q)
      → counted P greet talk s ends greeted q r + bit (talk q.state).sending
        ≡ counted P greet talk s begins greeted q r + bit (talk s).sending
  unfolding counted
  files-balance greeted q created = refl
  files-balance greeted q (before {q = q₀} r st at) =
      omega (
        arith,
        files-balance false q₀ r,
        rises-falls (talk q₀.state).sending (talk q.state).sending,
      )
  files-balance greeted q (greets {q = q₀} ctl r same) =
      omega (
        arith,
        files-balance false q₀ r,
        rises-falls (talk q₀.state).sending (talk q.state).sending,
      )
  files-balance greeted q (after {q = q₀} r st) =
      omega
        (arith, files-balance true q₀ r, rises-falls (talk q₀.state).sending (talk q.state).sending)

module _ {S : Type 0} (P : Program S) (greet : ℕ → S → S) (talk : S → Talk) (s : S)
    (moves : (q q' : Threads S) → Step P q q' → Move (talk q.state) (talk q'.state))
    (greeting : (ctl : ℕ) (v : S) → talk (greet ctl v) ≡ talk v) where
  openings-balance :
      (greeted : Bool) (q : Threads S) (r : Run P greet s greeted q)
      → counted P greet talk s begins greeted q r + bit (talk q.state).asked
        ≤ counted P greet talk s opens greeted q r + bit (talk s).asked
  unfolding counted
  openings-balance greeted q created = omega arith
  openings-balance greeted q (before {q = q₀} r st at) =
      omega (arith, openings-balance false q₀ r, Move-rises (moves q₀ q st))
  openings-balance greeted q (greets {q = q₀} ctl r same) =
      let still : Move (talk q₀.state) (talk q.state) =
        nothing (ap (λ x. talk x.state) same ∙ greeting ctl q₀.state) in
      omega (arith, openings-balance false q₀ r, Move-rises still)
  openings-balance greeted q (after {q = q₀} r st) =
      omega (arith, openings-balance true q₀ r, Move-rises (moves q₀ q st))

  -- A program of which every step is a move, and that starts quiet, sends no more files than were
  -- accepted, and sees no more accepted than it offered.
  pub Run-counts :
      talk s ≡ quiet
      → (greeted : Bool) (q : Threads S) (r : Run P greet s greeted q)
      → (counted P greet talk s ends greeted q r ≤ counted P greet talk s begins greeted q r)
        × (counted P greet talk s begins greeted q r ≤ counted P greet talk s opens greeted q r)
  Run-counts still greeted q r =
      let free : bit (talk s).asked ≡ 0 = ap (λ (t : Talk). bit t.asked) still in
      let calm : bit (talk s).sending ≡ 0 = ap (λ (t : Talk). bit t.sending) still in
      (
        omega (arith, files-balance P greet talk s greeted q r, calm),
        omega (arith, openings-balance greeted q r, free),
      )

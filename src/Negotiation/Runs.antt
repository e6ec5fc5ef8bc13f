-- ===== src/Negotiation/Runs.antt =====
-- How often the calls of a run open a negotiation, see it accepted, and send the file.
use wire_send.Common.{
  ℕ, ◌+◌, ◌≤◌, ◌≡◌, refl, ap, Bool, true, false, not, ◌&&◌, arith, if◌then◌else◌,
}
use wire_send.Negotiation.{
  Talk, quiet, Move, offer, answer, decline, sent, request, accepted, rejected, cancelled, nothing,
}
use wire_send.Threads.{Threads, Program, Step, Reach, start, later}

abbrev pub rises : Bool → Bool → ℕ
rises b b' = if not b && b' then 1 else 0

abbrev pub bit : Bool → ℕ
bit true = 1
bit false = 0

module _ {S : Type 0} (P : Program S) (talk : S → Talk) (s : S) where
  -- The steps that open a negotiation.
  unfoldable pub offers_made : (q : Threads S) → Reach P s q → ℕ
  offers_made q start = 0
  offers_made q (later {q = q₀} r st) =
      offers_made q₀ r + rises (talk q₀.state).asked (talk q.state).asked

  -- The steps from which on a file is to be sent.
  unfoldable pub acceptances_met : (q : Threads S) → Reach P s q → ℕ
  acceptances_met q start = 0
  acceptances_met q (later {q = q₀} r st) =
      acceptances_met q₀ r + rises (talk q₀.state).sending (talk q.state).sending

  -- The steps from which on it is no longer.
  unfoldable pub files_sent : (q : Threads S) → Reach P s q → ℕ
  files_sent q start = 0
  files_sent q (later {q = q₀} r st) =
      files_sent q₀ r + rises (talk q.state).sending (talk q₀.state).sending

pub Move-rises :
    {t u : Talk}
    → Move t u
    → rises t.sending u.sending + bit u.asked ≤ rises t.asked u.asked + bit t.asked
Move-rises (offer e) = ground arith
Move-rises (answer a e) = ground arith
Move-rises (decline a e) = ground arith
Move-rises (sent a e) = ground arith
Move-rises (request a e) = ground arith
Move-rises (accepted a e) = ground arith
Move-rises (rejected a e) = ground arith
Move-rises (cancelled e) = ground arith
Move-rises (nothing e) = ground arith

pub rises-falls : (b b' : Bool) → rises b' b + bit b' ≡ rises b b' + bit b
rises-falls true true = refl
rises-falls true false = refl
rises-falls false true = refl
rises-falls false false = refl

module _ {S : Type 0} (P : Program S) (talk : S → Talk) (s : S) where
  files-balance :
      (q : Threads S) (r : Reach P s q)
      → files_sent P talk s q r + bit (talk q.state).sending
        ≡ acceptances_met P talk s q r + bit (talk s).sending
  unfolding files_sent acceptances_met
  files-balance q start = refl
  files-balance q (later {q = q₀} r st) =
      omega (arith, files-balance q₀ r, rises-falls (talk q₀.state).sending (talk q.state).sending)

  -- Who does not send at the start sends no more files than were accepted.
  pub files_sent-acceptances_met :
      (talk s).sending ≡ false
      → (q : Threads S) (r : Reach P s q) → files_sent P talk s q r ≤ acceptances_met P talk s q r
  files_sent-acceptances_met calm q r =
      let still : bit (talk s).sending ≡ 0 = ap bit calm in omega (arith, files-balance q r, still)

module _ {S : Type 0} (P : Program S) (talk : S → Talk) (s : S)
    (moves : (q q' : Threads S) → Step P q q' → Move (talk q.state) (talk q'.state)) where
  acceptances-balance :
      (q : Threads S) (r : Reach P s q)
      → acceptances_met P talk s q r + bit (talk q.state).asked
        ≤ offers_made P talk s q r + bit (talk s).asked
  unfolding acceptances_met offers_made
  acceptances-balance q start = omega arith
  acceptances-balance q (later {q = q₀} r st) =
      omega (arith, acceptances-balance q₀ r, Move-rises (moves q₀ q st))

  -- A program of which every step is a move, and that starts quiet, sends no more files than were
  -- accepted, and sees no more accepted than it offered.
  pub Reach-counts :
      talk s ≡ quiet
      → (q : Threads S) (r : Reach P s q)
      → (files_sent P talk s q r ≤ acceptances_met P talk s q r)
        × (acceptances_met P talk s q r ≤ offers_made P talk s q r)
  Reach-counts still q r =
      let free : bit (talk s).asked ≡ 0 = ap (λ (t : Talk). bit t.asked) still in
      (
        files_sent-acceptances_met P talk s (ap (λ (t : Talk). t.sending) still) q r,
        omega (arith, acceptances-balance q r, free),
      )

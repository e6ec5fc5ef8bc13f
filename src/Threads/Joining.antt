-- ===== src/Threads/Joining.antt =====
-- A program of which no line leads to the join never joins its receiving thread.
use wire_send.Common.{ℕ, ◌≡◌, ◌≢◌, refl, ap, ◌∙◌, Bool, true, false}
use wire_send.Common.Outcome.{ok, terminated}
use wire_send.Threads.{
  LineEnd, again, say_it, leaves, joins, InputPc, at_while, at_line, at_file, at_send, finished,
  RecvPc, after_line, after_send, joined_then, Threads, Program, Step, enters, falls_out, lines,
  files, sends, reads, stops, handles, changes, Reach, start, later,
}

abbrev pub is_joined : InputPc → Bool
is_joined at_while = false
is_joined at_line = false
is_joined (at_file text) = false
is_joined (at_send text) = false
is_joined (finished joined) = joined

after_line-unjoined : (r : LineEnd) → r ≢ joins → is_joined (after_line r) ≡ false
after_line-unjoined again h = refl
after_line-unjoined (say_it text) h = refl
after_line-unjoined leaves h = refl
after_line-unjoined joins h = absurd (h refl)

after_send-unjoined : (go : Bool) → is_joined (after_send go) ≡ false
after_send-unjoined true = refl
after_send-unjoined false = refl

module _ {S : Type 0} (P : Program S) where
  abbrev pub NeverJoins : Type 0
  NeverJoins = (ctl : ℕ) (s s' : S) (r : LineEnd) → P.line ctl s ≡ ok (r, s') → r ≢ joins

module _ {S : Type 0} (P : Program S) (never : NeverJoins P) where
  pub Step-unjoined :
      (q q' : Threads S) → Step P q q' → is_joined q.input ≡ false → is_joined q'.input ≡ false
  Step-unjoined q q' (enters at up same) h = ap (λ x. is_joined x.input) same
  Step-unjoined q q' (falls_out at down same) h = ap (λ x. is_joined x.input) same
  Step-unjoined q q' (lines ctl r s at e same) h =
      ap (λ x. is_joined x.input) same ∙ after_line-unjoined r (never ctl q.state s r e)
  Step-unjoined q q' (files text at same) h = ap (λ x. is_joined x.input) same
  Step-unjoined q q' (sends text at same) h =
      ap (λ x. is_joined x.input) same ∙ after_send-unjoined (P.send_line text q.state).0
  Step-unjoined q q' (reads at up same) h = ap (λ x. is_joined x.input) same ∙ h
  Step-unjoined q q' (stops at down same) h = ap (λ x. is_joined x.input) same ∙ h
  Step-unjoined q q' (handles a go s at e same) h = ap (λ x. is_joined x.input) same ∙ h
  Step-unjoined q q' (changes s w same) h = ap (λ x. is_joined x.input) same ∙ h

  pub Reach-unjoined : (s : S) (q : Threads S) → Reach P s q → is_joined q.input ≡ false
  Reach-unjoined s q start = refl
  Reach-unjoined s q (later {q = q₀} r st) = Step-unjoined q₀ q st (Reach-unjoined s q₀ r)

-- What follows the loop does not give a result then.
pub joined_then-unjoined :
    {A : Type 0} (i : InputPc) (r : RecvPc) (a b : A)
    → is_joined i ≡ false
    → joined_then i r a ≢ ok b
joined_then-unjoined at_while r a b h e = cc
joined_then-unjoined at_line r a b h e = cc
joined_then-unjoined (at_file text) r a b h e = cc
joined_then-unjoined (at_send text) r a b h e = cc
joined_then-unjoined (finished false) r a b h e = cc
joined_then-unjoined (finished true) r a b h e = cc

pub joined_then-terminated :
    {A : Type 0} (i : InputPc) (r : RecvPc) (a : A) (joined : Bool)
    → i ≡ finished joined
    → is_joined i ≡ false
    → joined_then i r a ≡ terminated
joined_then-terminated at_while r a joined at_end h = absurd (cc)
joined_then-terminated at_line r a joined at_end h = absurd (cc)
joined_then-terminated (at_file text) r a joined at_end h = absurd (cc)
joined_then-terminated (at_send text) r a joined at_end h = absurd (cc)
joined_then-terminated (finished false) r a joined at_end h = refl
joined_then-terminated (finished true) r a joined at_end h = absurd (cc)

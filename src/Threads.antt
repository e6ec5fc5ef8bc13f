-- ===== src/Threads.antt =====
-- The two threads of one program: `std::thread RecvThread(RunRecvThread, ...)` beside the input
-- loop, in `StartServer` (src/ServerMod.cpp) and `StartClient` (src/ClientMod.cpp). They share the
-- whole state. A step is one call of a thread, and the steps interleave in any order.
pub mod Joining
pub mod Tracing
pub mod Greeting
use wire_send.Common.{ℕ, ◌≡◌, List, sym, subst, Bool, true, false}
use wire_send.Common.Outcome.{Outcome, ok, terminated, hangs}
use wire_send.Net.Frame.{Arrival}

-- What follows on a line that was read: the next one, the sending of the line, the end of the
-- loop, or `RecvThread.join()`.
pub data LineEnd : Type 0 where
  again : LineEnd
  say_it : List ℕ → LineEnd
  leaves joins : LineEnd

-- Where the input loop stands: at the test of its `while`, in `getline`, before the sending of a file
-- or of the line, or behind the loop. `finished` says that it was left by way of the join.
pub data InputPc : Type 0 where
  at_while at_line : InputPc
  at_file at_send : List ℕ → InputPc
  finished : (joined : Bool) → InputPc

-- Where the receiving thread stands, with the packet that it read and has not handled yet.
pub data RecvPc : Type 0 where
  reading : RecvPc
  holding : Arrival → RecvPc
  ended : RecvPc

abbrev pub after_line : LineEnd → InputPc
after_line again = at_while
after_line (say_it text) = at_file text
after_line leaves = finished false
after_line joins = finished true

abbrev pub after_send : Bool → InputPc
after_send true = at_while
after_send false = finished false

abbrev pub after_handle : Bool → RecvPc
after_handle true = reading
after_handle false = ended

-- `~thread()`: a thread that was not joined ends the program.
abbrev pub destroyed : {A : Type 0} → (joined : Bool) → A → Outcome A
destroyed true a = ok a
destroyed false a = terminated

-- `RecvThread.join()` before what follows, if the loop was left that way; then the end of the
-- function that owns the thread. Until then, and until the thread ends, it waits.
abbrev pub joined_then : {A : Type 0} → InputPc → RecvPc → A → Outcome A
joined_then at_while r a = hangs
joined_then at_line r a = hangs
joined_then (at_file text) r a = hangs
joined_then (at_send text) r a = hangs
joined_then (finished false) r a = destroyed false a
joined_then (finished true) reading a = hangs
joined_then (finished true) (holding x) a = hangs
joined_then (finished true) ended a = destroyed true a

-- The calls of a program's threads on its state, and what the world outside may do to it.
pub record Program (S : Type 0) : Type 1 where
  pub running : S → Bool
  pub connected : S → Bool
  -- A line is read, with its command; `ctl` is what a control byte that is not set happens to be.
  pub line : (ctl : ℕ) → S → Outcome (LineEnd × S)
  pub send_file : S → S
  -- `true` says that the loop goes on.
  pub send_line : List ℕ → S → Bool × S
  pub read : S → Arrival × S
  pub handle : Arrival → S → Outcome (Bool × S)
  pub World : S → S → Type 0

pub record Threads (S : Type 0) : Type 0 where
  pub state : S
  pub input : InputPc
  pub recv : RecvPc

module _ {S : Type 0} (P : Program S) where
  pub data Step (q q' : Threads S) : Type 0 where
    enters :
        q.input ≡ at_while
        → P.running q.state ≡ true
        → q' ≡ record q { input = at_line }
        → Step q q'
    falls_out :
        q.input ≡ at_while
        → P.running q.state ≡ false
        → q' ≡ record q { input = finished false }
        → Step q q'
    lines :
        (ctl : ℕ) (r : LineEnd) (s : S)
        → q.input ≡ at_line
        → P.line ctl q.state ≡ ok (r, s)
        → q' ≡ record q { state = s; input = after_line r }
        → Step q q'
    files :
        (text : List ℕ)
        → q.input ≡ at_file text
        → q' ≡ record q { state = P.send_file q.state; input = at_send text }
        → Step q q'
    sends :
        (text : List ℕ)
        → q.input ≡ at_send text
        → q' ≡ record q {
          state = (P.send_line text q.state).1;
          input = after_send (P.send_line text q.state).0;
        }
        → Step q q'
    reads :
        q.recv ≡ reading
        → P.connected q.state ≡ true
        → q' ≡ record q { state = (P.read q.state).1; recv = holding (P.read q.state).0 }
        → Step q q'
    stops :
        q.recv ≡ reading → P.connected q.state ≡ false → q' ≡ record q { recv = ended } → Step q q'
    handles :
        (a : Arrival) (go : Bool) (s : S)
        → q.recv ≡ holding a
        → P.handle a q.state ≡ ok (go, s)
        → q' ≡ record q { state = s; recv = after_handle go }
        → Step q q'
    changes : (s : S) → P.World q.state s → q' ≡ record q { state = s } → Step q q'

  pub data Reach (s : S) : Threads S → Type 0 where
    start : Reach s (record { state = s; input = at_while; recv = reading })
    later : {q q' : Threads S} → Reach s q → Step q q' → Reach s q'

  -- What every call of the threads keeps.
  pub record IsKept (I : S → Type 0) : Type 0 where
    pub line : (ctl : ℕ) (s s' : S) (r : LineEnd) → P.line ctl s ≡ ok (r, s') → I s → I s'
    pub send_file : (s : S) → I s → I (P.send_file s)
    pub send_line : (text : List ℕ) (s : S) → I s → I (P.send_line text s).1
    pub read : (s : S) → I s → I (P.read s).1
    pub handle : (a : Arrival) (s s' : S) (go : Bool) → P.handle a s ≡ ok (go, s') → I s → I s'
    pub world : (s s' : S) → P.World s s' → I s → I s'

module _ {S : Type 0} (P : Program S) (I : S → Type 0) (kept : IsKept P I) where
  pub Step-kept : (q q' : Threads S) → Step P q q' → I q.state → I q'.state
  Step-kept q q' (enters at up same) i = subst (λ x. I x.state) (sym same) i
  Step-kept q q' (falls_out at down same) i = subst (λ x. I x.state) (sym same) i
  Step-kept q q' (lines ctl r s at e same) i =
      subst (λ x. I x.state) (sym same) (kept.line ctl q.state s r e i)
  Step-kept q q' (files text at same) i =
      subst (λ x. I x.state) (sym same) (kept.send_file q.state i)
  Step-kept q q' (sends text at same) i =
      subst (λ x. I x.state) (sym same) (kept.send_line text q.state i)
  Step-kept q q' (reads at up same) i = subst (λ x. I x.state) (sym same) (kept.read q.state i)
  Step-kept q q' (stops at down same) i = subst (λ x. I x.state) (sym same) i
  Step-kept q q' (handles a go s at e same) i =
      subst (λ x. I x.state) (sym same) (kept.handle a q.state s go e i)
  Step-kept q q' (changes s w same) i = subst (λ x. I x.state) (sym same) (kept.world q.state s w i)

  -- What every call keeps holds in every state that the threads reach, however they interleave.
  pub Reach-kept : (s : S) (q : Threads S) → I s → Reach P s q → I q.state
  Reach-kept s q i start = i
  Reach-kept s q i (later {q = q₀} r st) = Step-kept q₀ q st (Reach-kept s q₀ i r)

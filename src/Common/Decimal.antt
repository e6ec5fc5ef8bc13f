-- ===== src/Common/Decimal.antt =====
-- Decimal numerals: `std::to_string` and the digits that `std::from_chars` and `atoi` read.
use Prim.Native.Nat.{ℕ, zero, suc, ◌+◌, ◌-◌, ◌*◌, ◌/◌, ◌%◌, ◌≤◌, ◌<◌}
use mathlib.Core.Path.{◌≡◌, refl, ap, ◌∙◌}
use mathlib.Core.Bool.{Bool, false, ◌&&◌}
use mathlib.Core.List.{List, [], ◌∷◌, ◌++◌}
use native.Mathlib.Omega.{arith}
use wire_send.Common.Tests.{ltb, leb, if◌then◌else◌, ltb→lt, Bool-cases}
use mathlib.Core.Logic.{inl, inr, ◌≢◌}
use wire_send.Common.Lists.{All}

abbrev pub is_digit : ℕ → Bool
is_digit c = leb b'0' c && leb c b'9'

-- The digits at the front of a text, and what follows them.
unfoldable pub digit_run : List ℕ → List ℕ × List ℕ
digit_run [] = ([], [])
digit_run (c ∷ cs) = let r = digit_run cs in if is_digit c then (c ∷ r.0, r.1) else ([], c ∷ cs)

-- The number that digits stand for, after those that made `acc`.
unfoldable pub of_digits : ℕ → List ℕ → ℕ
of_digits acc [] = acc
of_digits acc (c ∷ cs) = of_digits (acc * 10 + (c - b'0')) cs

decimal_loop : ℕ → ℕ → List ℕ → List ℕ
decimal_loop zero n out = out
decimal_loop (suc fuel) n out =
    let out' = (b'0' + n % 10) ∷ out in
    let more = decimal_loop fuel (n / 10) out' in if ltb n 10 then out' else more

-- A number of `n` has at most `n + 1` digits.
unfoldable pub to_decimal : ℕ → List ℕ
unfolding decimal_loop
to_decimal n = decimal_loop (suc n) n []

abbrev pub IsDigit : ℕ → Type 0
IsDigit c = (b'0' ≤ c) × (c ≤ b'9')

of_digits-decimal_loop :
    (fuel n : ℕ) (out : List ℕ) → n < fuel → of_digits 0 (decimal_loop fuel n out) ≡ of_digits n out
unfolding decimal_loop of_digits
of_digits-decimal_loop zero n out h = absurd (omega arith)
of_digits-decimal_loop (suc fuel) n out h = elim (Bool-cases (ltb n 10)) [
  | inl small ↦
      let e : 0 * 10 + (b'0' + n % 10 - b'0') ≡ n = omega (arith, ltb→lt n 10 small) in
      rw small (ap (λ a. of_digits a out) e)
  | inr large ↦
      let e : n / 10 * 10 + (b'0' + n % 10 - b'0') ≡ n = omega arith in
      let bound : 10 ≤ n = ground arith in
      rw large (
        of_digits-decimal_loop fuel (n / 10) ((b'0' + n % 10) ∷ out) (omega arith)
        ∙ ap (λ a. of_digits a out) e)
]

decimal_loop-IsDigit :
    (fuel n : ℕ) (out : List ℕ) → All IsDigit out → All IsDigit (decimal_loop fuel n out)
unfolding decimal_loop
decimal_loop-IsDigit zero n out h = h
decimal_loop-IsDigit (suc fuel) n out h = ground (
  arith,
  decimal_loop-IsDigit fuel (n / 10) ((b'0' + n % 10) ∷ out) ((omega arith, omega arith), h),
)

pub to_decimal-IsDigit : (n : ℕ) → All IsDigit (to_decimal n)
unfolding to_decimal
to_decimal-IsDigit n = decimal_loop-IsDigit (suc n) n [] tt

-- Reading what was printed.
pub of_digits-to_decimal : (n : ℕ) → of_digits 0 (to_decimal n) ≡ n
unfolding to_decimal of_digits
of_digits-to_decimal n = of_digits-decimal_loop (suc n) n [] (omega arith)

pub digit_run-All : (cs : List ℕ) → All IsDigit cs → digit_run cs ≡ (cs, [])
unfolding digit_run
digit_run-All [] h = refl
digit_run-All (c ∷ cs) h = ground (arith, digit_run-All cs h.1)

decimal_loop-ne-nil : (fuel n d : ℕ) (out : List ℕ) → decimal_loop fuel n (d ∷ out) ≢ []
unfolding decimal_loop
decimal_loop-ne-nil zero n d out h = cc
decimal_loop-ne-nil (suc fuel) n d out h =
    ground (arith, decimal_loop-ne-nil fuel (n / 10) (b'0' + n % 10) (d ∷ out))

pub to_decimal-ne-nil : (n : ℕ) → to_decimal n ≢ []
unfolding to_decimal decimal_loop
to_decimal-ne-nil n h = ground (arith, decimal_loop-ne-nil n (n / 10) (b'0' + n % 10) [])

-- The run of digits in front of another character.
pub digit_run-append :
    (cs : List ℕ) (d : ℕ) (rest : List ℕ)
    → All IsDigit cs
    → is_digit d ≡ false
    → digit_run (cs ++ d ∷ rest) ≡ (cs, d ∷ rest)
unfolding digit_run
digit_run-append [] d rest h stop = rw stop
digit_run-append (c ∷ cs) d rest h stop = ground (arith, digit_run-append cs d rest h.1 stop)

-- ===== src/Wire/Reading.antt =====
-- What the loops over a buffer write and read: `push_back` in a loop, `memcpy` and `buff[index++]`.
use wire_send.Common.{
  ℕ, zero, suc, ◌+◌, ◌≤◌, ◌<◌, ◌≡◌, refl, sym, ap, ◌∙◌, List, [], ◌∷◌, ◌++◌, append-nil,
  append_assoc, none, some, arith, length, take, drop, get_elem?, length-append, take-append,
  drop-append, length-take, length-drop, take-append-drop, le→leb, Option-cases, inl, inr,
}
use wire_send.Wire.{push_bytes, copy_out, read_loop}

pub push_bytes-append : (buff bs : List ℕ) → push_bytes buff bs ≡ buff ++ bs
unfolding push_bytes
push_bytes-append buff [] = sym (append-nil buff)
push_bytes-append buff (b ∷ bs) =
    push_bytes-append (buff ++ b ∷ []) bs ∙ append_assoc buff (b ∷ []) bs

pub get_elem?-append :
    (xs : List ℕ) (x : ℕ) (ys : List ℕ) (i : ℕ)
    → i ≡ length xs
    → get_elem? (xs ++ x ∷ ys) i ≡ some x
get_elem?-append [] x ys zero h = refl
get_elem?-append [] x ys (suc i) h = absurd (omega arith)
get_elem?-append (y ∷ xs) x ys zero h = absurd (omega arith)
get_elem?-append (y ∷ xs) x ys (suc i) h = get_elem?-append xs x ys i (omega arith)

pub get_elem?-eq_none : (xs : List ℕ) (i : ℕ) → length xs ≤ i → get_elem? xs i ≡ none
get_elem?-eq_none [] i h = refl
get_elem?-eq_none (x ∷ xs) zero h = absurd (omega arith)
get_elem?-eq_none (x ∷ xs) (suc i) h = get_elem?-eq_none xs i (omega arith)

pub get_elem?-lt : (xs : List ℕ) (i : ℕ) {x : ℕ} → get_elem? xs i ≡ some x → i < length xs
get_elem?-lt [] i h = cc
get_elem?-lt (y ∷ xs) zero h = omega arith
get_elem?-lt (y ∷ xs) (suc i) h = omega (arith, get_elem?-lt xs i h)

pub get_elem?_within : (xs : List ℕ) (i : ℕ) → i < length xs → (x : ℕ) × (get_elem? xs i ≡ some x)
get_elem?_within [] i h = absurd (omega arith)
get_elem?_within (y ∷ xs) zero h = (y, refl)
get_elem?_within (y ∷ xs) (suc i) h = get_elem?_within xs i (omega arith)

-- A copy of the middle part of a buffer.
pub copy_out-append :
    (xs ys zs : List ℕ) (i n : ℕ)
    → i ≡ length xs
    → n ≡ length ys
    → copy_out (xs ++ (ys ++ zs)) i n ≡ some ys
unfolding copy_out
copy_out-append xs ys zs i n hi hn = rw (
  le→leb (i + n) (length (xs ++ (ys ++ zs)))
      (omega (arith, length-append xs (ys ++ zs), length-append ys zs)),
  drop-append i xs (ys ++ zs) hi,
  take-append n ys zs hn,
)

-- The loop reads the middle part of a buffer.
pub read_loop-append :
    (ys : List ℕ) (xs zs : List ℕ) (i : ℕ) (out : List ℕ)
    → i ≡ length xs
    → read_loop (xs ++ (ys ++ zs)) (length ys) i out ≡ some (out ++ ys)
unfolding read_loop
read_loop-append [] xs zs i out h = ap some (sym (append-nil out))
read_loop-append (y ∷ ys) xs zs i out h = rw (get_elem?-append xs y (ys ++ zs) i h) (
    rw (append_assoc xs (y ∷ []) (ys ++ zs), append_assoc out (y ∷ []) ys) at
      (read_loop-append ys (xs ++ y ∷ []) zs (i + 1) (out ++ y ∷ [])
        (omega (arith, length-append xs (y ∷ [])))))

-- It leaves the buffer when there are not enough bytes.
pub read_loop-eq_none :
    (buff : List ℕ) (n i : ℕ) (out : List ℕ)
    → length buff < i + n
    → i ≤ length buff
    → read_loop buff n i out ≡ none
unfolding read_loop
read_loop-eq_none buff zero i out h k = absurd (omega arith)
read_loop-eq_none buff (suc n) i out h k = elim (Option-cases (get_elem? buff i)) [
  | inl e ↦ rw e
  | inr (b, e) ↦ rw e (
      read_loop-eq_none buff n (i + 1) (out ++ b ∷ []) (omega arith)
        (omega (arith, get_elem?-lt buff i e)))
]

-- Any copy within the buffer.
pub copy_out_within :
    (buff : List ℕ) (i n : ℕ)
    → i + n ≤ length buff
    → copy_out buff i n ≡ some (take n (drop i buff))
unfolding copy_out
copy_out_within buff i n h = rw (le→leb (i + n) (length buff) h)

pub copy_out-eq_none : (buff : List ℕ) (i n : ℕ) → length buff < i + n → copy_out buff i n ≡ none
unfolding copy_out
copy_out-eq_none buff i n h = ground arith

-- The loop reads what `take` and `drop` cut out.
pub read_loop_within :
    (buff : List ℕ) (n i : ℕ) (out : List ℕ)
    → i + n ≤ length buff
    → read_loop buff n i out ≡ some (out ++ take n (drop i buff))
read_loop_within buff n i out h =
    rw (parts, counted) at
      (read_loop-append (take n (drop i buff)) (take i buff) (drop n (drop i buff)) i out
        (omega (arith, length-take i buff)))
  where
    parts : take i buff ++ (take n (drop i buff) ++ drop n (drop i buff)) ≡ buff
    parts = rw (take-append-drop n (drop i buff)) (take-append-drop i buff)

    counted : length (take n (drop i buff)) ≡ n
    counted = omega (arith, length-take n (drop i buff), length-drop i buff)

-- ===== src/Files/Laws.antt =====
-- The entries of a disk after a write.
use wire_send.Common.{
  Bool, ℕ, ◌≡◌, ◌≢◌, sym, ◌∙◌, List, [], ◌∷◌, ◌++◌, true, false, none, some, arith, text_eq,
  text_eq_sound, text_eq_refl, Bool-cases, inl, inr,
}
use wire_send.Files.{
  Disk, Entry, regular, find_entry, put_entry, entry_at, exists, exists_at, put, open_truncated,
  append_to,
}

pub find_entry-put_entry_self :
    (path : List ℕ) (x : Entry) (es : List (List ℕ × Entry))
    → find_entry path (put_entry path x es) ≡ some x
unfolding find_entry put_entry
find_entry-put_entry_self path x [] = rw (text_eq_refl path)
find_entry-put_entry_self path x ((p, y) ∷ es) = elim (Bool-cases (text_eq p path)) [
  | inl e ↦ rw e (rw e)
  | inr e ↦ rw e (rw e (find_entry-put_entry_self path x es))
]

pub text_eq_ne : (xs ys : List ℕ) → xs ≢ ys → text_eq xs ys ≡ false
text_eq_ne xs ys h = elim (Bool-cases (text_eq xs ys)) [
  | inl e ↦ absurd (h (text_eq_sound xs ys e))
  | inr e ↦ e
]

pub find_entry-put_entry_ne :
    (path q : List ℕ) (x : Entry) (es : List (List ℕ × Entry))
    → path ≢ q
    → find_entry q (put_entry path x es) ≡ find_entry q es
unfolding find_entry put_entry
find_entry-put_entry_ne path q x [] h = rw (text_eq_ne path q h)
find_entry-put_entry_ne path q x ((p, y) ∷ es) h = elim (Bool-cases (text_eq p path)) [
  | inl e ↦
      let other : text_eq p q ≡ false =
        text_eq_ne p q (λ same. h (sym (text_eq_sound p path e) ∙ same)) in
      rw e (rw other)
  | inr e ↦ rw e (rw (find_entry-put_entry_ne path q x es h))
]

-- Where nothing stands yet, a stream that may write creates an empty file.
pub open_truncated_new :
    (d : Disk) (path : List ℕ)
    → exists d path ≡ false
    → d.can_write path ≡ true
    → open_truncated d path ≡ some (put d path [])
unfolding open_truncated exists
open_truncated_new d path free allowed = ground arith

-- Appending to a regular file.
pub append_to_regular :
    (d : Disk) (path bytes more : List ℕ)
    → entry_at d path ≡ some (regular bytes)
    → d.can_write path ≡ true
    → append_to d path more ≡ some (put d path (bytes ++ more))
unfolding append_to
append_to_regular d path bytes more there allowed = rw (there, allowed)

-- A path that does not exist has no entry.
pub exists_at-exists :
    (d : Disk) (path : List ℕ) (b : Bool) → exists_at d path ≡ some b → exists d path ≡ b
unfolding exists_at
exists_at-exists d path b h = ground arith

pub exists_none : (d : Disk) (path : List ℕ) → exists d path ≡ false → entry_at d path ≡ none
unfolding exists
exists_none d path h = ground arith

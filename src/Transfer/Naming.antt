-- ===== src/Transfer/Naming.antt =====
-- The name under which a file is saved beside one of the same name (`CanReceiveFiles`).
use wire_send.Common.{
  ℕ, zero, suc, ◌+◌, ◌≤◌, ◌<◌, ◌≡◌, ◌≢◌, refl, sym, ap, ◌∙◌, List, [], ◌∷◌, ◌++◌, reverse, true,
  false, none, some, arith, length, text_eq, text_eq_sound, text_eq_refl, Bool-cases, inl, inr, ◌⊎◌,
  ltb, ℕ_discrete, append-cancel_left, le→not_ltb, lt→ltb, Option, Bool, if◌then◌else◌, ◌==◌, subst,
}
use wire_send.Common.Decimal.{
  to_decimal, of_digits, of_digits-to_decimal, digit_run, digit_run-append, to_decimal-IsDigit,
}
use wire_send.Files.{Disk, Entry, find_entry, exists, exists_at}
use wire_send.Files.Laws.{text_eq_ne, exists_at-exists}
use wire_send.Files.Paths.{join, joined, parent_path, stem_and_extension}
use wire_send.Process.{PendingIncomingFileRequest, Process, say, ask_overwrite, new_file_created}
use wire_send.Common.Outcome.{Outcome, ok, terminated}
use wire_send.Transfer.{
  user_prompts, tried_at, user_action, can_receive_files, numbered, free_name_loop, free_name,
}

-- Of `length es + 1` different names one is not among the entries.
module _ where
  -- The numbering that leaves `j` out.
  skip : ℕ → ℕ → ℕ
  skip j i = if ltb i j then i else suc i

  skip-ne : (j i : ℕ) → skip j i ≢ j
  unfolding skip
  skip-ne j i h = ground arith

  skip-injective : (j a b : ℕ) → skip j a ≡ skip j b → a ≡ b
  unfolding skip
  skip-injective j a b h = ground arith

  skip-le : (j i : ℕ) → skip j i ≤ suc i
  unfolding skip
  skip-le j i = ground arith

  -- Whether a name is one of the first `n` numbered ones.
  seek :
      (name : ℕ → List ℕ) (p : List ℕ) (n : ℕ)
      → ((j : ℕ) × (j < n) × (p ≡ name j)) ⊎ ((j : ℕ) → j < n → p ≢ name j)
  seek name p zero = inr (λ j h. absurd (omega arith))
  seek name p (suc n) = elim (Bool-cases (text_eq p (name n))) [
    | inl e ↦ inl (n, omega arith, text_eq_sound p (name n) e)
    | inr e ↦ elim (seek name p n) [
      | inl (j, h, same) ↦ inl (j, omega arith, same)
      | inr other ↦ inr (λ j h same. elim (ℕ_discrete j n) [
        | yes last ↦ cc (e, sym (text_eq_refl p), same, last)
        | no before ↦ other j (omega arith) same
      ])
    ]
  ]

  find_miss :
      (p q : List ℕ) (x : Entry) (es : List (List ℕ × Entry))
      → p ≢ q
      → find_entry q es ≡ none
      → find_entry q ((p, x) ∷ es) ≡ none
  unfolding find_entry
  find_miss p q x es h miss = rw (text_eq_ne p q h) miss

  unused :
      (es : List (List ℕ × Entry)) (name : ℕ → List ℕ)
      → ((a b : ℕ) → name a ≡ name b → a ≡ b)
      → (i : ℕ) × (i ≤ length es) × (find_entry (name i) es ≡ none)
  unused [] name inj = (0, omega arith, unfold find_entry in refl)
  unused ((p, x) ∷ es) name inj = elim (seek name p (length es + 2)) [
    | inl (j, h, same) ↦
        let (i, le, miss) =
          unused es (λ i. name (skip j i)) (λ a b e. skip-injective j a b (inj _ _ e)) in
        (
          skip j i,
          omega (arith, skip-le j i),
          find_miss p (name (skip j i)) x es
              (λ e. skip-ne j i (sym (inj j (skip j i) (sym same ∙ e)))) miss,
        )
    | inr other ↦
        let (i, le, miss) = unused es name inj in
        (i, omega arith, find_miss p (name i) x es (other i (omega arith)) miss)
  ]

joined-injective : (folder r a b : List ℕ) → joined folder r a ≡ joined folder r b → a ≡ b
joined-injective folder [] a b h = h
joined-injective folder (c ∷ cs) a b h = elim (Bool-cases (c == b'/')) [
  | inl e ↦ append-cancel_left folder a b (rw e at h)
  | inr e ↦
      append-cancel_left (b'/' ∷ []) a b
        (append-cancel_left folder (b'/' ∷ a) (b'/' ∷ b) (rw e at h))
]

digits_before :
    (a b : ℕ) (rest : List ℕ)
    → to_decimal a ++ (b')' ∷ rest) ≡ to_decimal b ++ (b')' ∷ rest)
    → a ≡ b
digits_before a b rest h =
    let run = λ (n : ℕ). digit_run-append (to_decimal n) b')' rest (to_decimal-IsDigit n) refl in
    let same : to_decimal a ≡ to_decimal b = ap (λ r. r.0) (sym (run a) ∙ ap digit_run h ∙ run b) in
    sym (of_digits-to_decimal a) ∙ ap (of_digits 0) same ∙ of_digits-to_decimal b

-- Different counters make different names.
numbered-injective : (path : List ℕ) (a b : ℕ) → numbered path a ≡ numbered path b → a ≡ b
unfolding numbered join
numbered-injective path a b h =
    let parts = stem_and_extension path in
    let folder = parent_path path in
    digits_before a b parts.1 (
      append-cancel_left (b'(' ∷ []) _ _
        (append-cancel_left parts.0 _ _ (joined-injective folder (reverse folder) _ _ h)))

-- The names that the loop tries, from `new_path` on.
tried : List ℕ → ℕ → List ℕ → ℕ → List ℕ
tried path counter new_path zero = new_path
tried path counter new_path (suc i) = numbered path (counter + i)

-- A path that the loop looks at.
abbrev IsTried : List ℕ → List ℕ → Type 0
IsTried path q = (q ≡ path) ⊎ ((n : ℕ) × (q ≡ numbered path n))

-- The search found a path at which nothing stands, or it ended the program at one that cannot be
-- looked up.
abbrev pub Stops : Disk → List ℕ → Outcome (List ℕ) → Type 0
Stops d path o =
    ((q : List ℕ) × (o ≡ ok q) × (exists_at d q ≡ some false))
    ⊎ ((o ≡ terminated) × (q : List ℕ) × (exists_at d q ≡ none) × IsTried path q)

tried_at-Stops :
    (d : Disk) (path new_path : List ℕ) (more : Outcome (List ℕ)) (x : Option Bool)
    → exists_at d new_path ≡ x
    → IsTried path new_path
    → (x ≡ some true → Stops d path more)
    → Stops d path (tried_at new_path more x)
tried_at-Stops d path new_path more none same named next = inr (refl, new_path, same, named)
tried_at-Stops d path new_path more (some true) same named next = next refl
tried_at-Stops d path new_path more (some false) same named next = inl (new_path, refl, same)

-- The loop gets no further than the `i`th name if that is free.
free_name_loop-Stops :
    (fuel : ℕ) (d : Disk) (path : List ℕ) (counter : ℕ) (new_path : List ℕ) (i : ℕ)
    → IsTried path new_path
    → i < fuel
    → counter + i ≤ 2147483647
    → exists d (tried path counter new_path i) ≡ false
    → Stops d path (free_name_loop fuel d path counter new_path)
unfolding free_name_loop tried
free_name_loop-Stops zero d path counter new_path i named h bound free = absurd (omega arith)
free_name_loop-Stops (suc fuel) d path counter new_path zero named h bound free =
    tried_at-Stops d path new_path _ (exists_at d new_path) refl named (λ stands. absurd (
      let there = exists_at-exists d new_path true stands in
      let e : true ≡ false = sym there ∙ free in cc))
free_name_loop-Stops (suc fuel) d path counter new_path (suc zero) named h bound free =
    let same : counter + zero ≡ counter = omega arith in
    let rest =
      free_name_loop-Stops fuel d path (counter + 1) (numbered path counter) zero
        (inr (counter, refl)) (omega arith) (omega arith)
        (subst (λ n. exists d (numbered path n) ≡ false) same free) in
    tried_at-Stops d path new_path _ (exists_at d new_path) refl named
      (λ stands. rw (lt→ltb counter 2147483647 (omega arith)) rest)
free_name_loop-Stops (suc fuel) d path counter new_path (suc (suc k)) named h bound free =
    let same : counter + suc k ≡ counter + 1 + k = omega arith in
    let rest =
      free_name_loop-Stops fuel d path (counter + 1) (numbered path counter) (suc k)
        (inr (counter, refl)) (omega arith) (omega arith)
        (subst (λ n. exists d (numbered path n) ≡ false) same free) in
    tried_at-Stops d path new_path _ (exists_at d new_path) refl named
      (λ stands. rw (lt→ltb counter 2147483647 (omega arith)) rest)

-- For every path on a disk of at most 2147483645 entries the search for a name ends: it gives a
-- name at which `fs::exists` finds nothing, or it ends the program at the path or at a numbered
-- name that cannot be looked up. Its counter does not overflow.
pub free_name_total :
    (d : Disk) (path : List ℕ) → length d.entries + 2 ≤ 2147483647 → Stops d path (free_name d path)
unfolding free_name
free_name_total d path small =
    let (i, le, miss) =
      unused d.entries (λ i. numbered path (1 + i))
        (λ a b e. omega (arith, numbered-injective path (1 + a) (1 + b) e)) in
    let free : exists d (numbered path (1 + i)) ≡ false = unfold exists in rw miss in
    free_name_loop-Stops (length d.entries + 2) d path 1 path (suc i) (inl refl) (omega arith)
      (omega arith) (unfold tried in free)

module _ {System : Type 0} (r : PendingIncomingFileRequest) (p : Process System) where
  -- The state after the question whether to overwrite.
  abbrev pub asked : List (List ℕ) → Process System
  asked ls =
      say (user_prompts p.input) (record p { input = ls; screen = p.screen ++ ask_overwrite ∷ [] })

  module _ (available : ℕ) (ls : List (List ℕ))
      (space : p.disk.free_space (parent_path r.file_path_on_target) ≡ some available)
      (fits : r.metadata.file_size ≤ available)
      (taken : exists_at p.disk r.file_path_on_target ≡ some true) where
    -- If the folder has the space, something stands at the path, and the user answers that it is
    -- to be overwritten, then the call returns true, the request keeps its path and is marked,
    -- the answer's lines are used up, the question and the prompts are printed, and the disk is
    -- as it was.
    pub can_receive_files_overwrite :
        user_action p.input ≡ ok (true, ls)
        → can_receive_files r r.metadata p ≡ ok (true, record r { overwrite = true }, asked ls)
    unfolding can_receive_files
    can_receive_files_overwrite answer =
        rw (space, le→not_ltb available r.metadata.file_size fits, taken, answer)

    -- If the folder has the space, `fs::exists` finds something at the path, the user answers
    -- that it is not to be overwritten, and the disk has at most 2147483645 entries, then the
    -- call returns true, the request gets a path at which `fs::exists` finds nothing, the
    -- answer's lines are used up, the question, the prompts and the notice of a new file are
    -- printed, and the disk is as it was; or one of the names that the search tries cannot be
    -- looked up, and the call ends the program.
    pub can_receive_files_rename :
        user_action p.input ≡ ok (false, ls)
        → length p.disk.entries + 2 ≤ 2147483647
        → ((q : List ℕ) × (can_receive_files r r.metadata p
              ≡ ok (true, record r { file_path_on_target = q }, say new_file_created (asked ls)))
            × (exists_at p.disk q ≡ some false))
          ⊎ ((can_receive_files r r.metadata p ≡ terminated)
              × (q : List ℕ) × (exists_at p.disk q ≡ none)
              × ((q ≡ r.file_path_on_target) ⊎ ((n : ℕ) × (q ≡ numbered r.file_path_on_target n))))
    unfolding can_receive_files
    can_receive_files_rename answer small =
        elim (free_name_total p.disk r.file_path_on_target small) [
          | inl (q, found, free) ↦ inl (
            q,
            rw (space, le→not_ltb available r.metadata.file_size fits, taken, answer, found),
            free,
          )
          | inr (gone, q, unseen, named) ↦ inr (
            rw (space, le→not_ltb available r.metadata.file_size fits, taken, answer, gone),
            q,
            unseen,
            named,
          )
        ]

-- ===== src/Files/Paths.antt =====
-- `std::filesystem::path` on a POSIX system, on byte strings: `filename`, `stem`, `extension`,
-- `parent_path` and `operator/`.
use wire_send.Common.{
  ℕ, ◌≡◌, refl, List, [], ◌∷◌, ◌++◌, reverse, text_eq, codes, ◌==◌, if◌then◌else◌,
}

-- The bytes before the first `c`, and those from it on.
unfoldable pub break_at : ℕ → List ℕ → List ℕ × List ℕ
break_at c [] = ([], [])
break_at c (x ∷ xs) = let r = break_at c xs in if x == c then ([], x ∷ xs) else (x ∷ r.0, r.1)

unfoldable pub filename : List ℕ → List ℕ
unfolding break_at
filename path = reverse (break_at b'/' (reverse path)).0

skip_slashes : List ℕ → List ℕ
skip_slashes [] = []
skip_slashes (c ∷ cs) = let rest = skip_slashes cs in if c == b'/' then rest else c ∷ cs

-- What stands before the name, with no slash at its end unless it is the root.
abbrev folder_of : List ℕ → List ℕ → List ℕ
folder_of [] cs = reverse cs
folder_of (s ∷ ss) [] = b'/' ∷ []
folder_of (s ∷ ss) (c ∷ cs) = reverse (c ∷ cs)

unfoldable pub parent_path : List ℕ → List ℕ
unfolding break_at skip_slashes
parent_path path =
    let before = (break_at b'/' (reverse path)).1 in folder_of before (skip_slashes before)

-- The name split before its last dot. A name with no dot, with a dot in front only, and the names
-- "." and ".." have no extension.
abbrev split_dot : List ℕ → List ℕ × List ℕ → List ℕ × List ℕ
split_dot name (ext, []) = (name, [])
split_dot name (ext, dot ∷ []) = (name, [])
split_dot name (ext, dot ∷ c ∷ cs) = (reverse (c ∷ cs), dot ∷ reverse ext)

unfoldable pub stem_and_extension : List ℕ → List ℕ × List ℕ
unfolding filename
stem_and_extension path =
    let name = filename path in
    if text_eq name (codes "..") then (name, []) else split_dot name (break_at b'.' (reverse name))

-- `folder / name` for a name with no slash.
abbrev pub joined : List ℕ → List ℕ → List ℕ → List ℕ
joined folder [] name = name
joined folder (c ∷ cs) name = if c == b'/' then folder ++ name else folder ++ (b'/' ∷ name)

unfoldable pub join : List ℕ → List ℕ → List ℕ
join folder name = joined folder (reverse folder) name

split_plain : stem_and_extension (codes "/tmp/a.tar.gz") ≡ (codes "a.tar", codes ".gz")
unfolding stem_and_extension break_at filename text_eq
split_plain = refl

split_hidden : stem_and_extension (codes "x/.profile") ≡ (codes ".profile", [])
unfolding stem_and_extension break_at filename text_eq
split_hidden = refl

parent_root : parent_path (codes "/a") ≡ codes "/"
unfolding parent_path
parent_root = refl

parent_deep : parent_path (codes "/a//b.c") ≡ codes "/a"
unfolding parent_path
parent_deep = refl

join_deep : join (codes "/a") (codes "b") ≡ codes "/a/b"
unfolding join
join_deep = refl

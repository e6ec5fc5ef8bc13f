-- ===== src/Files.antt =====
-- What src/FileHandler.cpp uses of `std::filesystem` and of the file streams: paths, and a disk
-- that maps paths to entries.
pub mod Paths
pub mod Laws
use wire_send.Common.{
  ℕ, List, [], ◌∷◌, ◌++◌, Bool, true, false, ◌&&◌, Option, none, some, text_eq, if◌then◌else◌,
}

-- `other` is a directory, a device or the like.
pub data Entry : Type 0 where
  regular : List ℕ → Entry
  other : Entry

-- `free_space` is `fs::space(folder).available`, and `none` where that call throws. `can_read` and
-- `can_write` are the permissions that decide whether a stream opens. `can_look_up` is false where
-- the lookup of a path fails with an error, as for a name that is too long.
pub record Disk : Type 0 where
  pub entries : List (List ℕ × Entry)
  pub free_space : List ℕ → Option ℕ
  pub can_read : List ℕ → Bool
  pub can_write : List ℕ → Bool
  pub can_look_up : List ℕ → Bool

unfoldable pub find_entry : List ℕ → List (List ℕ × Entry) → Option Entry
find_entry path [] = none
find_entry path ((p, x) ∷ es) = if text_eq p path then some x else find_entry path es

unfoldable pub put_entry : List ℕ → Entry → List (List ℕ × Entry) → List (List ℕ × Entry)
put_entry path y [] = (path, y) ∷ []
put_entry path y ((p, x) ∷ es) =
    if text_eq p path then (p, y) ∷ es else (p, x) ∷ put_entry path y es

abbrev pub entry_at : Disk → List ℕ → Option Entry
entry_at d path = find_entry path d.entries

abbrev pub is_some_entry : Option Entry → Bool
is_some_entry none = false
is_some_entry (some x) = true

-- Something stands at the path.
unfoldable pub exists : Disk → List ℕ → Bool
unfolding find_entry
exists d path = is_some_entry (entry_at d path)

-- `fs::exists(path)`; `none` where it throws.
unfoldable pub exists_at : Disk → List ℕ → Option Bool
unfolding exists
exists_at d path = if d.can_look_up path then some (exists d path) else none

-- `fs::is_regular_file(path)`
abbrev is_regular_entry : Option Entry → Bool
is_regular_entry none = false
is_regular_entry (some (regular bytes)) = true
is_regular_entry (some other) = false

unfoldable pub is_regular_file : Disk → List ℕ → Bool
unfolding find_entry
is_regular_file d path = is_regular_entry (entry_at d path)

-- The bytes behind an open `std::ifstream`; `none` if it does not open.
abbrev readable : Option Entry → Bool → Option (List ℕ)
readable (some (regular bytes)) true = some bytes
readable (some (regular bytes)) false = none
readable (some other) b = none
readable none b = none

unfoldable pub open_to_read : Disk → List ℕ → Option (List ℕ)
unfolding find_entry
open_to_read d path = readable (entry_at d path) (d.can_read path)

abbrev pub put : Disk → List ℕ → List ℕ → Disk
put d path bytes = record d { entries = put_entry path (regular bytes) d.entries }

abbrev truncated : Disk → List ℕ → Option Entry → Bool → Option Disk
truncated d path (some other) b = none
truncated d path (some (regular bytes)) true = some (put d path [])
truncated d path (some (regular bytes)) false = none
truncated d path none true = some (put d path [])
truncated d path none false = none

-- `std::ofstream(path, binary)`: the disk with an empty file, or `none` if it does not open.
unfoldable pub open_truncated : Disk → List ℕ → Option Disk
unfolding find_entry put_entry
open_truncated d path = truncated d path (entry_at d path) (d.can_write path)

abbrev appended : Disk → List ℕ → List ℕ → Option Entry → Bool → Option Disk
appended d path more (some other) b = none
appended d path more (some (regular bytes)) true = some (put d path (bytes ++ more))
appended d path more (some (regular bytes)) false = none
appended d path more none true = some (put d path more)
appended d path more none false = none

-- `std::ofstream(path, binary | app)`, a write and a close. The write of an open stream adds all
-- bytes: what happens on a full disk is not modelled.
unfoldable pub append_to : Disk → List ℕ → List ℕ → Option Disk
unfolding find_entry put_entry
append_to d path more = appended d path more (entry_at d path) (d.can_write path)

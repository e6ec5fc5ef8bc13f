-- ===== src/Commands.antt =====
-- src/CmdHandler.cpp and headers/CmdHandler.hpp.
pub mod Interface
use wire_send.Common.{
  ℕ, suc, ◌≡◌, refl, ap, ◌∙◌, List, [], ◌∷◌, Bool, true, false, not, ◌&&◌, Option, none, some,
  arith, text_eq, text_eq_sound, codes, ◌==◌, if◌then◌else◌, ◌↔◌, Bool-cases, inl, inr,
  Option-cases,
}
use mathlib.Core.Option

pub data Command : Type 0 where
  stop accept reject file_prompt unknown not_a_command : Command

abbrev pub cmd_stop : List ℕ
cmd_stop = codes "/stop"

abbrev pub cmd_fileprompt : List ℕ
cmd_fileprompt = codes "/f"

abbrev pub cmd_accept : List ℕ
cmd_accept = codes "/a"

abbrev pub cmd_reject : List ℕ
cmd_reject = codes "/r"

-- `input.find("/")`: the first place of the byte.
unfoldable pub find_byte : ℕ → List ℕ → Option ℕ
find_byte c [] = none
find_byte c (x ∷ xs) = if x == c then some 0 else Option.map suc (find_byte c xs)

abbrev is_zero : Option ℕ → Bool
is_zero none = false
is_zero (some n) = n == 0

abbrev pub is_empty : List ℕ → Bool
is_empty [] = true
is_empty (x ∷ xs) = false

unfoldable pub parse_commands : List ℕ → Command
parse_commands input =
    if not (is_empty input) && is_zero (find_byte b'/' input)
    then (if text_eq input cmd_stop
        then stop
        else if text_eq input cmd_accept
        then accept
        else if text_eq input cmd_fileprompt
        then file_prompt
        else if text_eq input cmd_reject
        then reject
        else unknown)
    else not_a_command

-- `find` gives 0 exactly for a text that begins with the byte.
find_byte_zero : (c x : ℕ) (xs : List ℕ) → is_zero (find_byte c (x ∷ xs)) ≡ (x == c)
unfolding find_byte
find_byte_zero c x xs = elim (Bool-cases (x == c)) [
  | inl e ↦ rw e
  | inr e ↦ rw e (elim (Option-cases (find_byte c xs)) [
    | inl miss ↦ rw miss
    | inr (n, found) ↦ rw found (ground arith)
  ])
]

abbrev pub begins_with_slash : List ℕ → Bool
begins_with_slash [] = false
begins_with_slash (x ∷ xs) = x == b'/'

-- The tests on a text that begins with a slash.
abbrev which : List ℕ → Command
which t =
    if text_eq t cmd_stop
    then stop
    else if text_eq t cmd_accept
    then accept
    else if text_eq t cmd_fileprompt
    then file_prompt
    else if text_eq t cmd_reject
    then reject
    else unknown

parse_commands-which :
    (t : List ℕ) → parse_commands t ≡ (if begins_with_slash t then which t else not_a_command)
unfolding parse_commands
parse_commands-which [] = refl
parse_commands-which (x ∷ xs) = rw (find_byte_zero b'/' x xs)

-- A command is read from its own text only.
module _ (t : List ℕ) where
  parse_commands_sound :
      ((parse_commands t ≡ stop) → t ≡ cmd_stop)
      × ((parse_commands t ≡ accept) → t ≡ cmd_accept)
      × ((parse_commands t ≡ file_prompt) → t ≡ cmd_fileprompt)
      × ((parse_commands t ≡ reject) → t ≡ cmd_reject)
  parse_commands_sound = rw (parse_commands-which t) (
    λ h. text_eq_sound t cmd_stop (ground arith),
    λ h. text_eq_sound t cmd_accept (ground arith),
    λ h. text_eq_sound t cmd_fileprompt (ground arith),
    λ h. text_eq_sound t cmd_reject (ground arith),
  )

  plain_text : (parse_commands t ≡ not_a_command) ↔ (begins_with_slash t ≡ false)
  plain_text = rw (parse_commands-which t) (λ h. ground arith, λ h. ground arith)

commands_run :
    (parse_commands cmd_stop ≡ stop)
    × (parse_commands cmd_accept ≡ accept)
    × (parse_commands cmd_fileprompt ≡ file_prompt)
    × (parse_commands cmd_reject ≡ reject)
unfolding parse_commands find_byte text_eq
commands_run = (refl, refl, refl, refl)

-- Each of the four commands is read from its own text and from no other, and a text is no command
-- exactly if it does not begin with a slash.
pub parse_commands_table :
    (t : List ℕ)
    → ((parse_commands t ≡ stop) ↔ (t ≡ cmd_stop))
      × ((parse_commands t ≡ accept) ↔ (t ≡ cmd_accept))
      × ((parse_commands t ≡ file_prompt) ↔ (t ≡ cmd_fileprompt))
      × ((parse_commands t ≡ reject) ↔ (t ≡ cmd_reject))
      × ((parse_commands t ≡ not_a_command) ↔ (begins_with_slash t ≡ false))
parse_commands_table t =
    let (s, a, f, r) = parse_commands_sound t in
    let (s', a', f', r') = commands_run in
    (
      (s, λ e. ap parse_commands e ∙ s'),
      (a, λ e. ap parse_commands e ∙ a'),
      (f, λ e. ap parse_commands e ∙ f'),
      (r, λ e. ap parse_commands e ∙ r'),
      plain_text t,
    )

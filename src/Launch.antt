-- ===== src/Launch.antt =====
-- src/UserHandler.cpp: the command line, up to the call of `StartServer` or `StartClient`.
-- An argument is its bytes without the final zero; the list holds argv[0] too.
pub mod Ports
pub mod Run
use wire_send.Common.{
  ℕ, ◌+◌, ◌-◌, ◌%◌, ◌^◌, List, [], ◌∷◌, Bool, true, false, ◌&&◌, ◌||◌, Option, none, some, ltb, leb,
  ◌==◌, text_eq, codes, length, get_elem?, if◌then◌else◌,
}
use wire_send.Common.Outcome.{Outcome, ok, undefined, ◌>>=◌}
use wire_send.Common.Decimal.{digit_run, of_digits}

-- `std::from_chars` into a `uint32_t`, of which the whole text has to be read: `none` where
-- `result.ec` or `result.ptr` says otherwise.
abbrev read_whole : List ℕ × List ℕ → Option ℕ
read_whole ([], rest) = none
read_whole (d ∷ ds, c ∷ cs) = none
read_whole (d ∷ ds, []) = let v = of_digits 0 (d ∷ ds) in if ltb v (2 ^ 32) then some v else none

abbrev in_range : Option ℕ → Option ℕ
in_range none = none
in_range (some v) = if ltb v 1024 || ltb 65535 v then none else some (v % 2 ^ 16)

-- The port, or `none` where `ParsePort` returns false.
unfoldable pub parse_port : List ℕ → Option ℕ
unfolding digit_run of_digits
parse_port text = in_range (read_whole (digit_run text))

-- `isspace` in the C locale.
abbrev is_space : ℕ → Bool
is_space c = c == 32 || (leb 9 c && leb c 13)

unfoldable pub skip_spaces : List ℕ → List ℕ
skip_spaces [] = []
skip_spaces (c ∷ cs) = let rest = skip_spaces cs in if is_space c then rest else c ∷ cs

abbrev digits_value : List ℕ → ℕ
digits_value cs = of_digits 0 (digit_run cs).0

-- The `uint16_t` that `atoi(text)` becomes; the conversion of a number that is no `int` is
-- undefined.
abbrev signed_port : List ℕ → Outcome ℕ
signed_port [] = ok 0
signed_port (c ∷ cs) =
    if c == b'-'
    then (if leb (digits_value cs) (2 ^ 31)
        then ok ((2 ^ 16 - digits_value cs % 2 ^ 16) % 2 ^ 16)
        else undefined)
    else if c == b'+'
    then (if ltb (digits_value cs) (2 ^ 31) then ok (digits_value cs % 2 ^ 16) else undefined)
    else if ltb (digits_value (c ∷ cs)) (2 ^ 31)
    then ok (digits_value (c ∷ cs) % 2 ^ 16)
    else undefined

unfoldable pub port_of_atoi : List ℕ → Outcome ℕ
unfolding skip_spaces digit_run of_digits
port_of_atoi text = signed_port (skip_spaces text)

-- What `main` does: return -1, or start a server or a client.
pub data Start : Type 0 where
  refused : Start
  serve : ℕ → Start
  connect_to : List ℕ → ℕ → Start

unfoldable pub has_debug_flag : List (List ℕ) → Bool
unfolding text_eq
has_debug_flag [] = false
has_debug_flag (a ∷ rest) = text_eq a (codes "-dbg") || has_debug_flag rest

abbrev served : Option ℕ → Start
served none = refused
served (some port) = serve port

-- The arguments behind argv[0].
abbrev start_mode : List (List ℕ) → Outcome Start
start_mode [] = ok refused
start_mode (mode ∷ []) = ok refused
start_mode (mode ∷ a ∷ []) =
    if text_eq mode (codes "server") then ok (served (parse_port a)) else ok refused
start_mode (mode ∷ a ∷ b ∷ rest) =
    if text_eq mode (codes "server")
    then ok (served (parse_port a))
    else if text_eq mode (codes "client")
    then (port_of_atoi b >>= λ port. ok (connect_to a port))
    else ok refused

abbrev behind_name : List (List ℕ) → List (List ℕ)
behind_name [] = []
behind_name (a ∷ rest) = rest

-- `main`: the value of `EnableDebug`, and how the program starts.
unfoldable pub main : List (List ℕ) → Bool × Outcome Start
unfolding has_debug_flag parse_port port_of_atoi text_eq
main argv =
    (ltb 1 (length argv) && has_debug_flag (behind_name argv), start_mode (behind_name argv))

-- ===== src/Process.antt =====
-- What the modules of one running program share: the globals of src/api.cpp, the pending requests
-- of headers/FileTypes.hpp, the terminal, and the world outside.
use wire_send.Common.{
  ◌≡◌, ℕ, List, [], ◌∷◌, ◌++◌, Bool, true, false, ◌||◌, Option, none, some, ◌==◌, text_eq, codes,
  if◌then◌else◌,
}
use wire_send.Common.Outcome.{Outcome, ok, undefined}
use wire_send.Wire.{FileMetadata}
use wire_send.Files.{Disk}

pub record PendingIncomingFileRequest : Type 0 where
  pub active : Bool
  pub overwrite : Bool
  pub file_path_on_target : List ℕ
  pub metadata : FileMetadata

pub record PendingOutgoingFileRequest : Type 0 where
  pub active : Bool
  pub file_path_on_src : List ℕ
  pub metadata : FileMetadata

-- The lines that the program prints outside the debugging mode, by what they tell.
pub data Notice : Type 0 where
  peer_says : List ℕ → Notice
  broadcast_says : List ℕ → Notice
  you_say : List ℕ → Notice
  incoming_request : FileMetadata → Notice
  peer_accepted peer_rejected request_cancelled client_left file_received : Notice
  -- The prompt of `UserAction` and its line on an answer that is none, that often, and the prompt
  -- once more.
  asked_user : ℕ → Notice
  ask_overwrite new_file_created no_space cannot_open cannot_open_chunk cannot_send : Notice
  recv_file_failed send_failed sent_the_file send_error : Notice
  ask_send : FileMetadata → Notice
  selection_cancelled invalid_command no_request forbidden stopped : Notice
  connection_closed terminating ending invalid_address address_error connection_error connected
        listening :
      Notice
  not_listening port_in_use permission_denied bind_error accept_error too_many_clients : Notice
  client_now_connected socket_error : Notice
  saving_to : List ℕ → Notice

-- The five flags are the globals. `sys` is the state of the operating system. `input` are the lines still to be typed, `dialogs`
-- the answers that the file dialogs will give, a path or `none` for a cancelled one.
pub record Process (System : Type 0) : Type 0 where
  pub sys : System
  pub disk : Disk
  pub input : List (List ℕ)
  pub dialogs : List (Option (List ℕ))
  pub screen : List Notice
  pub enable_debug : Bool
  pub program_running : Bool
  pub running_mode : Bool
  pub active_file_neg_req : Bool
  pub file_transfer_mode : Bool

-- The globals as the program starts.
abbrev pub initial_process :
    {System : Type 0} → System → Disk → List (List ℕ) → List (Option (List ℕ)) → Process System
initial_process s d input dialogs = record {
  sys = s;
  disk = d;
  input = input;
  dialogs = dialogs;
  screen = [];
  enable_debug = false;
  program_running = true;
  running_mode = false;
  active_file_neg_req = false;
  file_transfer_mode = false;
}

-- `HandleExit`
unfoldable pub handle_exit : {System : Type 0} → Process System → Process System
handle_exit p = record p { program_running = false }

abbrev pub say : {System : Type 0} → Notice → Process System → Process System
say n p = record p { screen = p.screen ++ n ∷ [] }

-- `std::getline(std::cin, text)`: the next line, or nothing at the end of the input.
abbrev pub first_line : List (List ℕ) → List ℕ
first_line [] = []
first_line (l ∷ ls) = l

abbrev pub other_lines : List (List ℕ) → List (List ℕ)
other_lines [] = []
other_lines (l ∷ ls) = ls

-- The answer of a dialog, and the answers after it.
abbrev pub first_answer : List (Option (List ℕ)) → Option (List ℕ)
first_answer [] = none
first_answer (a ∷ rest) = a

abbrev pub other_answers : List (Option (List ℕ)) → List (Option (List ℕ))
other_answers [] = []
other_answers (a ∷ rest) = rest

-- `printf("%s", text.c_str())` prints up to the first zero byte.
unfoldable pub c_str : List ℕ → List ℕ
c_str [] = []
c_str (b ∷ bs) = let rest = c_str bs in if b == 0 then [] else b ∷ rest

-- How a round of a loop ends: with the next one, with a `break`, or with a return of -1.
pub data Verdict : Type 0 where
  go_on leave return_error : Verdict

-- A read outside a buffer is undefined.
abbrev pub defined {ℓ} : {A : Type ℓ} → Option A → Outcome A
defined none = undefined
defined (some a) = ok a

abbrev pub is_yes : List ℕ → Bool
is_yes answer = text_eq answer (codes "Y") || text_eq answer (codes "y")

abbrev pub goes_on : Verdict → Bool
goes_on go_on = true
goes_on leave = false
goes_on return_error = false

-- What the world outside changes of a program: the system, the disk, the lines and the answers to
-- come.
abbrev pub Outside : {System : Type 0} → Process System → Process System → Type 0
Outside {System} p p' =
    (s : System) × (d : Disk) × (lines : List (List ℕ)) × (answers : List (Option (List ℕ))) × (p'
      ≡ record p { sys = s; disk = d; input = lines; dialogs = answers })

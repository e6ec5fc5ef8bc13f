-- ===== src/Info.antt =====
-- What the program tells of itself and of its peer: `GetLANIPAddr`, `PrintServerInfo` and
-- `PrintIncomingFileInfo` of src/api.cpp, and the two lines that src/FileHandler.cpp prints in the
-- debugging mode. Each is the text that is printed.
pub mod Lan
use wire_send.Common.{
  ℕ, List, [], ◌∷◌, ◌++◌, Bool, true, false, not, Option, none, some, take, codes, text_eq,
  if◌then◌else◌,
}
use wire_send.Common.Decimal.{to_decimal}
use wire_send.Common.Outcome.{Outcome, ok, undefined}
use wire_send.Files.Paths.{filename, stem_and_extension}
use wire_send.Process.{PendingIncomingFileRequest, PendingOutgoingFileRequest, c_str}

pub data Family : Type 0 where
  inet other_family : Family

-- An element of the list of `getifaddrs`: its `ifa_addr`, which may be null, with the number that
-- the `sockaddr_in` of an `AF_INET` holds.
abbrev pub IfAddr : Type 0
IfAddr = Option (Family × ℕ)

-- `strncmp(text, "127.", 4) == 0`
abbrev pub is_loopback : List ℕ → Bool
is_loopback text = text_eq (take 4 text) (codes "127.")

-- The `for` loop over the elements; `inet_ntop` is the text of an address.
unfoldable pub lan_loop : (ℕ → List ℕ) → List IfAddr → Option (List ℕ)
unfolding text_eq
lan_loop inet_ntop [] = none
lan_loop inet_ntop (none ∷ rest) = lan_loop inet_ntop rest
lan_loop inet_ntop (some (other_family, a) ∷ rest) = lan_loop inet_ntop rest
lan_loop inet_ntop (some (inet, a) ∷ rest) =
    let more = lan_loop inet_ntop rest in
    if not (is_loopback (inet_ntop a)) then some (inet_ntop a) else more

-- `GetLANIPAddr`; `none` stands for a null pointer, and for a `getifaddrs` that fails.
unfoldable pub get_lan_ip_addr : (ℕ → List ℕ) → Option (List IfAddr) → Option (List ℕ)
unfolding lan_loop
get_lan_ip_addr inet_ntop none = none
get_lan_ip_addr inet_ntop (some elements) = lan_loop inet_ntop elements

abbrev line_end : List ℕ
line_end = 10 ∷ []

-- A null pointer for `%s` is undefined.
abbrev pub server_text : ℕ → Option (List ℕ) → Outcome (List ℕ)
server_text port none = undefined
server_text port (some ip) = ok (
    line_end
    ++ codes "========Server Info========"
    ++ line_end
    ++ codes "Local IP: 127.0.0.1:"
    ++ to_decimal port
    ++ line_end
    ++ codes "LAN IP: "
    ++ ip
    ++ codes ":"
    ++ to_decimal port
    ++ line_end
    ++ codes "==========================="
    ++ line_end
    ++ line_end)

-- `PrintServerInfo`
unfoldable pub print_server_info : (ℕ → List ℕ) → Option (List IfAddr) → ℕ → Outcome (List ℕ)
unfolding get_lan_ip_addr
print_server_info inet_ntop addresses port = server_text port (get_lan_ip_addr inet_ntop addresses)

-- `PrintIncomingFileInfo`
unfoldable pub print_incoming_file_info : ℕ → List ℕ → List ℕ
print_incoming_file_info file_size file_name =
    line_end
    ++ codes "========NEW FILE TRANSFER REQUEST========"
    ++ line_end
    ++ codes "    You have a new file transfer request"
    ++ line_end
    ++ codes "        File name: "
    ++ c_str file_name
    ++ line_end
    ++ codes "        File size: "
    ++ to_decimal file_size
    ++ line_end
    ++ codes "       Would you like to accept?"
    ++ line_end
    ++ codes "=========================================="
    ++ line_end
    ++ line_end
    ++ codes "'/a' or '/r' to accept/reject respectively."
    ++ line_end

-- `path.filename().stem()`
abbrev short_name : List ℕ → List ℕ
short_name path = (stem_and_extension (filename path)).0

-- `dbgPrintRecvFileInfo`
unfoldable pub dbg_print_recv_file_info : PendingIncomingFileRequest → List ℕ
dbg_print_recv_file_info r =
    codes "[dbg] Saving "
    ++ c_str (short_name r.file_path_on_target)
    ++ codes " to "
    ++ c_str r.file_path_on_target
    ++ codes "."
    ++ line_end

-- `dbgPrintSendFileInfo`
unfoldable pub dbg_print_send_file_info : PendingOutgoingFileRequest → List ℕ
dbg_print_send_file_info r =
    codes "[dbg] Sending "
    ++ c_str (short_name r.file_path_on_src)
    ++ codes " from "
    ++ c_str r.file_path_on_src
    ++ codes "."
    ++ line_end

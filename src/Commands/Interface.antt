-- ===== src/Commands/Interface.antt =====
-- headers/CmdHandler.hpp: the texts of the commands, and how one is read from a line.
use wire_send.Common.{ℕ, List}
use wire_send.Commands.{Command, cmd_stop, cmd_fileprompt, cmd_accept, cmd_reject, parse_commands}

pub record CmdHandler : Type 0 where
  pub stop_text : List ℕ
  pub file_prompt_text : List ℕ
  pub accept_text : List ℕ
  pub reject_text : List ℕ
  pub parse : List ℕ → Command

unfoldable pub cmd_handler : CmdHandler
cmd_handler = record {
  stop_text = cmd_stop;
  file_prompt_text = cmd_fileprompt;
  accept_text = cmd_accept;
  reject_text = cmd_reject;
  parse = parse_commands;
}

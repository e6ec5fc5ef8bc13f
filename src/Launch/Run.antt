-- ===== src/Launch/Run.antt =====
-- What `main` of src/UserHandler.cpp returns.
use wire_send.Common.{
  ℕ, ◌≡◌, sym, ap, ◌∙◌, List, [], ◌∷◌, Bool, true, false, ◌↔◌, ℤ, pos, negsuc, codes, text_eq,
  if◌then◌else◌, ◌||◌,
}
use wire_send.Common.Outcome.{ok}
use wire_send.Wire.Memory.{ByteOrder}
use wire_send.Net.{Kernel}
use wire_send.Net.Sockets.{Sockets}
use wire_send.Process.{Process, return_error}
use wire_send.Server.{Server}
use wire_send.Server.Setup.{start_server}
use wire_send.Server.Run.{ServerRun, ServerRun-refused}
use wire_send.Client.{Client}
use wire_send.Client.Run.{ClientRun}
use wire_send.Launch.{refused, serve, connect_to, main, behind_name}

-- `RunningMode`, of which the value before is the first argument.
abbrev running_mode_of : Bool → List (List ℕ) → Bool
running_mode_of before [] = before
running_mode_of before (mode ∷ rest) =
    if text_eq mode (codes "server")
    then true
    else if text_eq mode (codes "client")
    then false
    else before

-- The globals that `main` sets: an `EnableDebug` that is set stays so.
unfoldable pub with_arguments : {System : Type 0} → List (List ℕ) → Process System → Process System
unfolding text_eq
with_arguments argv p = record p {
  enable_debug = p.enable_debug || (main argv).0;
  running_mode = running_mode_of p.running_mode (behind_name argv);
}

-- headers/UserHandler.hpp: which codes the two functions may return, in a process of the given state.
pub record Launcher (System : Type 0) : Type 1 where
  pub server_returns : (port : ℕ) → Process System → (code : ℤ) → Type 0
  pub client_returns : (ip : List ℕ) (port : ℕ) → Process System → (code : ℤ) → Type 0

unfoldable pub launcher : (K : Kernel) → Sockets K → ByteOrder → Launcher K.State
launcher K N e = record {
  server_returns = λ port p code. (v : Server K.State) × ServerRun K N e port p code v;
  client_returns = λ ip port p code. (v : Client K.State) × ClientRun K N e ip port p code v;
}

-- `MainRun argv p code`: in a process of the state `p`, `main` may return `code`.
pub data MainRun {System : Type 0} (L : Launcher System) (argv : List (List ℕ)) (p : Process System)
    (code : ℤ) : Type 0 where
  stops : (main argv).1 ≡ ok refused → code ≡ negsuc 0 → MainRun L argv p code
  serves :
      (port : ℕ) (c : ℤ)
      → (main argv).1 ≡ ok (serve port)
      → L.server_returns port (with_arguments argv p) c
      → code ≡ pos 0
      → MainRun L argv p code
  connects :
      (ip : List ℕ) (port : ℕ) (c : ℤ)
      → (main argv).1 ≡ ok (connect_to ip port)
      → L.client_returns ip port (with_arguments argv p) c
      → code ≡ pos 0
      → MainRun L argv p code

module _ {System : Type 0} (L : Launcher System) (argv : List (List ℕ)) (p : Process System)
    (code : ℤ) where
  -- `main` returns -1 exactly if it refuses the arguments.
  pub MainRun-code : MainRun L argv p code → (code ≡ negsuc 0) ↔ ((main argv).1 ≡ ok refused)
  MainRun-code (stops start result) = (λ h. start, λ h. result)
  MainRun-code (serves port c start run result) = (λ h. absurd (cc), λ h. absurd (cc))
  MainRun-code (connects ip port c start run result) = (λ h. absurd (cc), λ h. absurd (cc))

module _ (K : Kernel) (N : Sockets K) (e : ByteOrder) (argv : List (List ℕ)) (p : Process K.State)
    (code : ℤ) (port : ℕ) where
  -- If the arguments ask for a server on a port and `main` returns, then it returns 0, and what
  -- returned before was `StartServer` with its error, before its threads began.
  pub MainRun-server :
      (main argv).1 ≡ ok (serve port)
      → MainRun (launcher K N e) argv p code
      → (code ≡ pos 0)
        × (ctl : ℕ) × (v : Server K.State) × (start_server K N e ctl port (with_arguments argv p)
            ≡ ok (return_error, v))
  unfolding launcher
  MainRun-server asked (stops start result) = absurd (cc)
  MainRun-server asked (connects ip port' c start run result) = absurd (cc)
  MainRun-server asked (serves port' c start run result) =
      let same : port' ≡ port = cc in
      let (ctl, back) = ServerRun-refused K N e port' (with_arguments argv p) c run.0 run.1 in
      (
        result,
        ctl,
        run.0,
        ap (λ n. start_server K N e ctl n (with_arguments argv p)) (sym same) ∙ back,
      )

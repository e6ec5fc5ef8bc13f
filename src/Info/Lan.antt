-- ===== src/Info/Lan.antt =====
-- Which address `GetLANIPAddr` finds, and when `PrintServerInfo` has one to print.
use wire_send.Common.{
  ℕ, ◌≡◌, refl, List, [], ◌∷◌, Option, none, some, if◌then◌else◌, Bool-cases, inl, inr, ◌↔◌,
}
use wire_send.Common.Outcome.{undefined}
use wire_send.Info.{
  inet, other_family, IfAddr, is_loopback, lan_loop, get_lan_ip_addr, print_server_info,
  server_text,
}

-- The addresses that are no loopback, all of them and in order.
abbrev pub own_addresses : (ℕ → List ℕ) → List IfAddr → List (List ℕ)
own_addresses ntop [] = []
own_addresses ntop (none ∷ rest) = own_addresses ntop rest
own_addresses ntop (some (other_family, a) ∷ rest) = own_addresses ntop rest
own_addresses ntop (some (inet, a) ∷ rest) =
    let more = own_addresses ntop rest in if is_loopback (ntop a) then more else ntop a ∷ more

abbrev pub first {ℓ} : {A : Type ℓ} → List A → Option A
first [] = none
first (x ∷ xs) = some x

module _ (ntop : ℕ → List ℕ) where
  lan_loop-first :
      (elements : List IfAddr) → lan_loop ntop elements ≡ first (own_addresses ntop elements)
  unfolding lan_loop
  lan_loop-first [] = refl
  lan_loop-first (none ∷ rest) = lan_loop-first rest
  lan_loop-first (some (other_family, a) ∷ rest) = lan_loop-first rest
  lan_loop-first (some (inet, a) ∷ rest) = elim (Bool-cases (is_loopback (ntop a))) [
    | inl e ↦ rw e (lan_loop-first rest)
    | inr e ↦ rw e
  ]

  pub get_lan_ip_addr-first :
      (elements : List IfAddr)
      → get_lan_ip_addr ntop (some elements) ≡ first (own_addresses ntop elements)
  unfolding get_lan_ip_addr
  get_lan_ip_addr-first elements = lan_loop-first elements

server_text-first :
    (port : ℕ) (found : List (List ℕ)) → (server_text port (first found) ≡ undefined) ↔ (found ≡ [])
server_text-first port [] = (λ h. refl, λ h. refl)
server_text-first port (ip ∷ rest) = (λ h. absurd (cc), λ h. absurd (cc))

module _ (ntop : ℕ → List ℕ) where
  pub print_server_info_undefined_iff :
      (elements : List IfAddr) (port : ℕ)
      → (print_server_info ntop (some elements) port ≡ undefined)
        ↔ (own_addresses ntop elements ≡ [])
  unfolding print_server_info
  print_server_info_undefined_iff elements port =
      rw (get_lan_ip_addr-first ntop elements)
        (server_text-first port (own_addresses ntop elements))

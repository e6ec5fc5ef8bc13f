-- ===== src/Launch/Ports.antt =====
-- Which ports the two modes accept.
use wire_send.Common.{
  ℕ, ◌%◌, ◌^◌, ◌≤◌, ◌<◌, ◌≡◌, ◌≢◌, refl, sym, ap, ◌∙◌, List, [], ◌∷◌, some, arith, All, subst, ◌↔◌,
  codes,
}
use wire_send.Common.Outcome.{ok}
use wire_send.Common.Decimal.{
  digit_run, of_digits, to_decimal, IsDigit, digit_run-All, to_decimal-IsDigit,
  of_digits-to_decimal, to_decimal-ne-nil,
}
use wire_send.Launch.{connect_to, serve, in_range, read_whole, parse_port, port_of_atoi, main}

-- Only a text of digits is read whole.
digit_run-nil : (cs : List ℕ) → (digit_run cs).1 ≡ [] → All IsDigit cs × ((digit_run cs).0 ≡ cs)
unfolding digit_run
digit_run-nil [] h = (tt, refl)
digit_run-nil (c ∷ cs) h = ground (arith, digit_run-nil cs)

parse_port_digits :
    (text : List ℕ) (p : ℕ)
    → text ≢ []
    → All IsDigit text
    → of_digits 0 text ≡ p
    → 1024 ≤ p
    → p ≤ 65535
    → parse_port text ≡ some p
unfolding parse_port
parse_port_digits [] p n d v lo hi = absurd (n refl)
parse_port_digits (c ∷ cs) p n d v lo hi = rw (digit_run-All (c ∷ cs) d, v) (ground arith)

in_range_sound :
    (r : List ℕ × List ℕ) (p : ℕ)
    → in_range (read_whole r) ≡ some p
    → (r.1 ≡ []) × (r.0 ≢ []) × (of_digits 0 r.0 ≡ p) × (1024 ≤ p) × (p ≤ 65535)
in_range_sound ([], rest) p h = absurd (cc)
in_range_sound (d ∷ ds, c ∷ cs) p h = absurd (cc)
in_range_sound (d ∷ ds, []) p h = (refl, λ e. cc, ground arith, ground arith, ground arith)

-- `parse_port` accepts a text with a port exactly if the text is not empty, has digits only, and
-- writes that number, which lies between 1024 and 65535.
pub parse_port_iff :
    (text : List ℕ) (p : ℕ)
    → (parse_port text ≡ some p)
      ↔ ((text ≢ []) × All IsDigit text × (of_digits 0 text ≡ p) × (1024 ≤ p) × (p ≤ 65535))
parse_port_iff text p = (sound, λ h. parse_port_digits text p h.0 h.1 h.2 h.3 h.4)
  where
    sound :
        parse_port text ≡ some p
        → (text ≢ []) × All IsDigit text × (of_digits 0 text ≡ p) × (1024 ≤ p) × (p ≤ 65535)
    sound h =
        let (whole, some_digit, v, lo, hi) =
          in_range_sound (digit_run text) p (unfold parse_port in h) in
        let (digits, same) = digit_run-nil text whole in
        (subst (λ ds. ds ≢ []) same some_digit, digits, ap (of_digits 0) (sym same) ∙ v, lo, hi)

-- A port between 1024 and 65535, printed in decimal behind the word for a server, starts a server
-- on that port.
pub main_serve :
    (name : List ℕ) (port : ℕ)
    → 1024 ≤ port
    → port ≤ 65535
    → (main (name ∷ codes "server" ∷ to_decimal port ∷ [])).1 ≡ ok (serve port)
unfolding main
main_serve name port lo hi = rw (
    parse_port_digits (to_decimal port) port (to_decimal-ne-nil port) (to_decimal-IsDigit port)
      (of_digits-to_decimal port) lo hi)

port_of_atoi_digits :
    (text : List ℕ) (n : ℕ)
    → text ≢ []
    → All IsDigit text
    → of_digits 0 text ≡ n
    → n < 2 ^ 31
    → port_of_atoi text ≡ ok (n % 2 ^ 16)
unfolding port_of_atoi
port_of_atoi_digits [] n some_digit d v h = absurd (some_digit refl)
port_of_atoi_digits (c ∷ cs) n some_digit d v h =
    ground (arith, ap (λ r. r.0) (digit_run-All (c ∷ cs) d))

-- A number below 2^31, printed in decimal behind the word for a client and any address, starts a
-- client with that address and the number modulo 2^16 as its port: the client's port is not
-- checked.
pub main_connect :
    (name ip : List ℕ) (n : ℕ)
    → n < 2 ^ 31
    → (main (name ∷ codes "client" ∷ ip ∷ to_decimal n ∷ [])).1 ≡ ok (connect_to ip (n % 2 ^ 16))
unfolding main
main_connect name ip n h = rw (
    port_of_atoi_digits (to_decimal n) n (to_decimal-ne-nil n) (to_decimal-IsDigit n)
      (of_digits-to_decimal n) h)

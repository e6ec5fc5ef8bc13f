-- ===== src/Tests/Pipe.antt =====
-- A kernel for the tests: one connection, that delivers three bytes a call at most and accepts
-- four.
use wire_send.Common.{
  ℕ, zero, suc, ◌≤◌, ◌<◌, ◌≡◌, ◌≢◌, refl, sym, ap, ◌∙◌, List, [], ◌∷◌, ◌++◌, arith, length, take,
  drop, length-take, take-append-drop, ℤ, Bool, true, false,
}
use Prim.Native.Nat.{min}
use wire_send.Net.{
  Kernel, IsStream, IsHealthy, Received, received, recv_failed, Sent, sent, send_failed,
}
use wire_send.Net.Reliable.{IsReliable}

pub record Pipe : Type 0 where
  pub inbox : List ℕ
  pub outbox : List ℕ

abbrev pub piece : ℕ → ℕ
piece n = min n 3

abbrev pub pipe : Kernel
pipe = record {
  State = Pipe;
  recv = λ fd n s. (received (take (piece n) s.inbox), record s { inbox = drop (piece n) s.inbox });
  send = λ fd bs s. (sent (length (take 4 bs)), record s { outbox = s.outbox ++ take 4 bs });
  shutdown_read = λ fd s. s;
  shutdown_write = λ fd s. s;
  close = λ fd s. s;
}

pub recv_parts :
    (n : ℕ) (s s' : Pipe) (bs : List ℕ)
    → ◌≡◌ {A = Received × Pipe}
        (received (take (piece n) s.inbox), record s { inbox = drop (piece n) s.inbox })
        (received bs, s')
    → (length bs ≤ n) × (s.inbox ≡ bs ++ s'.inbox) × (s'.outbox ≡ s.outbox)
recv_parts n s s' bs e =
    let front : take (piece n) s.inbox ≡ bs = cc in
    let state : record s { inbox = drop (piece n) s.inbox } ≡ s' = ap (λ r. r.1) e in
    (
      omega (arith, length-take (piece n) s.inbox, ap length front),
      sym (take-append-drop (piece n) s.inbox) ∙ (λ i. front i ++ (state i).inbox),
      sym (ap (λ (t : Pipe). t.outbox) state),
    )

pub take_short : (k : ℕ) (bs : List ℕ) → take (length (take k bs)) bs ≡ take k bs
take_short zero bs = refl
take_short (suc k) [] = refl
take_short (suc k) (b ∷ bs) = ap (◌∷◌ b) (take_short k bs)

pub send_parts :
    (bs : List ℕ) (s s' : Pipe) (k : ℕ)
    → ◌≡◌ {A = Sent × Pipe}
        (sent (length (take 4 bs)), record s { outbox = s.outbox ++ take 4 bs })
        (sent k, s')
    → (k ≤ length bs) × (s'.outbox ≡ s.outbox ++ take k bs) × (s'.inbox ≡ s.inbox)
send_parts bs s s' k e =
    let count : length (take 4 bs) ≡ k = cc in
    let state : record s { outbox = s.outbox ++ take 4 bs } ≡ s' = ap (λ r. r.1) e in
    (
      omega (arith, length-take 4 bs, count),
      sym (ap (λ (t : Pipe). t.outbox) state)
          ∙ ap (λ bs'. s.outbox ++ bs') (sym (take_short 4 bs) ∙ ap (λ n. take n bs) count),
      sym (ap (λ (t : Pipe). t.inbox) state),
    )

pub never_fails :
    {A : Type 0} (bs : List ℕ) (s s' : Pipe)
    → ◌≡◌ {A = Sent × Pipe}
        (sent (length (take 4 bs)), record s { outbox = s.outbox ++ take 4 bs })
        (send_failed, s')
    → A
never_fails bs s s' e = absurd (cc)

abbrev pub stream : (fd : ℤ) → IsStream pipe fd
stream fd = record {
  pending = λ s. s.inbox;
  written = λ s. s.outbox;
  recv_front = λ n s s' bs e. recv_parts n s s' bs e;
  send_front = λ bs s s' k e. send_parts bs s s' k e;
  send_none = λ bs s s' e. never_fails bs s s' e;
}

recv_some :
    (n : ℕ) (s : Pipe)
    → 0 < n
    → s.inbox ≢ []
    → (0 < length (take (piece n) s.inbox)) × (length (take (piece n) s.inbox) ≤ 0x7ffff000)
recv_some n s h more = (
  omega (arith, length-take (piece n) s.inbox, nonempty s.inbox more),
  omega (arith, length-take (piece n) s.inbox),
)
  where
    nonempty : (xs : List ℕ) → xs ≢ [] → 0 < length xs
    nonempty [] ne = absurd (ne refl)
    nonempty (x ∷ xs) ne = omega arith

take_nil : (k : ℕ) (xs : List ℕ) → xs ≡ [] → take k xs ≡ []
take_nil zero xs h = refl
take_nil (suc k) [] h = refl
take_nil (suc k) (x ∷ xs) h = absurd (cc)

pub healthy : (fd : ℤ) → IsHealthy pipe fd (stream fd)
healthy fd = record {
  recv_more =
      λ n s h more. let (some_bytes, few) = recv_some n s h more in (_, _, refl, some_bytes, few);
  recv_end = λ n s h. (
    _,
    ap (λ bs. (received bs, record s { inbox = drop (piece n) s.inbox }))
        (take_nil (piece n) s.inbox h),
  );
  send_more =
      λ bs s h. (_, _, refl, omega (arith, length-take 4 bs), omega (arith, length-take 4 bs));
}

pub send_some :
    (bs : List ℕ) (s : Pipe)
    → 0 < length bs
    → (k : ℕ) × (s' : Pipe) × (◌≡◌ {A = Sent × Pipe}
        (sent (length (take 4 bs)), record s { outbox = s.outbox ++ take 4 bs })
        (sent k, s'))
      × (0 < k)
      × (k ≤ 0x7ffff000)
      × (◌≡◌ {A = Bool} true true)
send_some bs s more =
    (_, _, refl, omega (arith, length-take 4 bs), omega (arith, length-take 4 bs), refl)

pub never_shut : {A : Type 0} → ◌≡◌ {A = Bool} true false → A
never_shut h = absurd (cc)

pub recv_never_fails :
    {A : Type 0} (n : ℕ) (s s' : Pipe)
    → ◌≡◌ {A = Received × Pipe}
        (received (take (piece n) s.inbox), record s { inbox = drop (piece n) s.inbox })
        (recv_failed, s')
    → A
recv_never_fails n s s' e = absurd (cc)

-- The pipe is never shut.
abbrev pub reliable : (fd : ℤ) → IsReliable pipe fd (stream fd)
reliable fd = record {
  is_open = λ s. true;
  send_open = λ bs s more up. send_some bs s more;
  send_shut = λ bs s shut. never_shut shut;
  recv_none = λ n s s' e. recv_never_fails n s s' e;
  shutdown_read_keeps = λ d s. (refl, refl);
  shutdown_write_keeps = λ d s. (refl, refl);
  close_keeps = λ d s. (refl, refl);
}

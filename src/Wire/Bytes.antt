-- ===== src/Wire/Bytes.antt =====
-- The widths of the fields: a packet of bytes goes out as bytes, and what comes in as bytes is read as
-- a packet of fields that fit.
use wire_send.Common.{
  ℕ, zero, suc, ◌+◌, ◌%◌, ◌^◌, ◌<◌, ◌≡◌, refl, sym, ap, ◌∙◌, subst, List, [], ◌∷◌, ◌++◌, Option,
  none, some, ◌>>=◌, arith, length, take, drop, All, All-append, get_elem?, leb, Bool-cases, inl,
  inr, length-take, length-drop,
}
use wire_send.Wire.{
  Packet, TemporaryPacketHeader, TemporaryPacketBody, copy_out, read_loop, serialize_packet,
  deserialize_header_packet, deserialize_body_packet, combine_packet,
}
use wire_send.Wire.Memory.{
  ByteOrder, little, big, IsByte, loaded, ntohl, htonl, le_bytes, of_le_bytes,
}
use wire_send.Wire.Layout.{be_bytes_4, serialize_packet-frame}

-- The fields of `Packet` fit their types.
pub record IsPacket (p : Packet) : Type 0 where
  pub kind : IsByte p.pl_type
  pub len : p.pl_len < 2 ^ 32
  pub body : All IsByte p.pl_body
  pub ctl : IsByte p.pl_ctl

byte_at : (xs : List ℕ) (n x : ℕ) → All IsByte xs → get_elem? xs n ≡ some x → IsByte x
byte_at [] n x h e = absurd (cc)
byte_at (y ∷ ys) zero x h e = let same : y ≡ x = cc in subst IsByte same h.0
byte_at (y ∷ ys) (suc n) x h e = byte_at ys n x h.1 e

take-IsByte : (n : ℕ) (xs : List ℕ) → All IsByte xs → All IsByte (take n xs)
take-IsByte zero xs h = tt
take-IsByte (suc n) [] h = tt
take-IsByte (suc n) (x ∷ xs) h = (h.0, take-IsByte n xs h.1)

drop-IsByte : (n : ℕ) (xs : List ℕ) → All IsByte xs → All IsByte (drop n xs)
drop-IsByte zero xs h = h
drop-IsByte (suc n) [] h = tt
drop-IsByte (suc n) (x ∷ xs) h = drop-IsByte n xs h.1

-- A chain of two readings that gives a value gives one in each.
first_done :
    {A B : Type 0} (o : Option A) (f : A → Option B) (r : B)
    → (o >>= f) ≡ some r
    → (a : A) × (o ≡ some a) × (f a ≡ some r)
first_done none f r h = absurd (cc)
first_done (some a) f r h = (a, refl, h)

read_loop-IsByte :
    (buff : List ℕ) (rounds index : ℕ) (out got : List ℕ)
    → All IsByte buff
    → All IsByte out
    → read_loop buff rounds index out ≡ some got
    → All IsByte got
unfolding read_loop
read_loop-IsByte buff zero index out got hb ho e =
    let same : out ≡ got = cc in subst (All IsByte) same ho
read_loop-IsByte buff (suc rounds) index out got hb ho e =
    let (b, found, more) =
      first_done (get_elem? buff index) (λ b. read_loop buff rounds (index + 1) (out ++ b ∷ [])) got
        e in
    read_loop-IsByte buff rounds (index + 1) (out ++ b ∷ []) got hb
      (All-append IsByte out (b ∷ []) ho (byte_at buff index b hb found, tt)) more

be_bytes_4-IsByte : (v : ℕ) → All IsByte (be_bytes_4 v)
unfolding be_bytes_4
be_bytes_4-IsByte v = (omega arith, (omega arith, (omega arith, (omega arith, tt))))

pub serialize_packet-IsByte :
    (e : ByteOrder) (p : Packet) → IsPacket p → All IsByte (serialize_packet e p).0
serialize_packet-IsByte e p h =
    let tail = All-append IsByte p.pl_body (p.pl_ctl ∷ []) h.body (h.ctl, tt) in
    subst (All IsByte) (sym (serialize_packet-frame e p))
      (h.kind, All-append IsByte _ _ (be_bytes_4-IsByte (length p.pl_body % 2 ^ 32)) tail)

-- Four bytes hold less than 2^32, in either order.
swapped_fits : (e : ByteOrder) (v : ℕ) → v < 2 ^ 32 → ntohl e v < 2 ^ 32
unfolding htonl le_bytes of_le_bytes
swapped_fits little v h = omega arith
swapped_fits big v h = h

loaded_fits : (e : ByteOrder) (bs : List ℕ) → All IsByte bs → length bs ≡ 4 → loaded e bs < 2 ^ 32
unfolding of_le_bytes
loaded_fits little (a ∷ b ∷ c ∷ d ∷ []) h l = omega (arith, h.0, h.1.0, h.1.1.0, h.1.1.1.0)
loaded_fits big (a ∷ b ∷ c ∷ d ∷ []) h l = omega (arith, h.0, h.1.0, h.1.1.0, h.1.1.1.0)
loaded_fits e [] h l = absurd (omega arith)
loaded_fits e (a ∷ []) h l = absurd (omega arith)
loaded_fits e (a ∷ b ∷ []) h l = absurd (omega arith)
loaded_fits e (a ∷ b ∷ c ∷ []) h l = absurd (omega arith)
loaded_fits e (a ∷ b ∷ c ∷ d ∷ x ∷ xs) h l = absurd (omega arith)

copied_fits :
    (e : ByteOrder) (buff bs : List ℕ)
    → All IsByte buff
    → copy_out buff 1 4 ≡ some bs
    → ntohl e (loaded e bs) < 2 ^ 32
unfolding copy_out
copied_fits e buff bs h copied = elim (Bool-cases (leb 5 (length buff))) [
  | inl long ↦
      let same : take 4 (drop 1 buff) ≡ bs = ground arith in
      let four : length (take 4 (drop 1 buff)) ≡ 4 =
        grind (arith, length-take 4 (drop 1 buff), length-drop 1 buff) in
      swapped_fits e (loaded e bs) (
        loaded_fits e bs
          (subst (All IsByte) same (take-IsByte 4 (drop 1 buff) (drop-IsByte 1 buff h)))
          (sym (ap length same) ∙ four))
  | inr short ↦ absurd (ground arith)
]

-- What is read from bytes has fields that fit.
pub deserialize-IsPacket :
    (e : ByteOrder) (hdrbuff buff : List ℕ) (hdr : TemporaryPacketHeader)
    (body : TemporaryPacketBody)
    → All IsByte hdrbuff
    → All IsByte buff
    → deserialize_header_packet e hdrbuff ≡ some hdr
    → deserialize_body_packet buff hdr ≡ some body
    → IsPacket (combine_packet hdr body)
unfolding combine_packet deserialize_header_packet deserialize_body_packet
deserialize-IsPacket e hdrbuff buff hdr body h b read_hdr read_body =
    let (t, t_there, after_t) = first_done (get_elem? hdrbuff 0) _ hdr read_hdr in
    let (bs, copied, hdr_is) = first_done (copy_out hdrbuff 1 4) _ hdr after_t in
    let (got, looped, after_loop) = first_done (read_loop buff hdr.len 0 []) _ body read_body in
    let (c, c_there, body_is) = first_done (get_elem? buff hdr.len) _ body after_loop in
    let t_is : t ≡ hdr.kind = cc in
    let len_is : ntohl e (loaded e bs) ≡ hdr.len = cc in
    let got_is : got ≡ body.body = cc in
    let c_is : c ≡ body.ctl = cc in
    record {
      kind = subst IsByte t_is (byte_at hdrbuff 0 t h t_there);
      len = subst (λ n. n < 2 ^ 32) len_is (copied_fits e hdrbuff bs h copied);
      body = subst (All IsByte) got_is (read_loop-IsByte buff hdr.len 0 [] got b tt looped);
      ctl = subst IsByte c_is (byte_at buff hdr.len c b c_there);
    }

-- ===== src/Net/Typing.antt =====
-- What is read from a stream of bytes is a packet whose fields fit their types.
use wire_send.Common.{ℕ, ◌+◌, ◌≡◌, refl, ap, subst, List, [], ◌∷◌, ◌++◌, Option, none, some, All, ℤ}
use wire_send.Wire.{
  Packet, TemporaryPacketHeader, TemporaryPacketBody, deserialize_header_packet,
  deserialize_body_packet, combine_packet,
}
use wire_send.Wire.Memory.{ByteOrder, IsByte}
use wire_send.Wire.Bytes.{IsPacket, deserialize-IsPacket}
use wire_send.Net.{Kernel, IsStream, Reception, complete, failed, closed, receive_packet}
use wire_send.Net.Receive.{receive_packet-complete}
use wire_send.Net.Frame.{arrived, combined, body_arrival, read_body, after_header, read_frame}

All-front : (xs ys : List ℕ) → All IsByte (xs ++ ys) → All IsByte xs
All-front [] ys h = tt
All-front (x ∷ xs) ys h = (h.0, All-front xs ys h.1)

All-back : (xs ys : List ℕ) → All IsByte (xs ++ ys) → All IsByte ys
All-back [] ys h = h
All-back (x ∷ xs) ys h = All-back xs ys h.1

module _ (K : Kernel) (e : ByteOrder) (fd : ℤ) (S : IsStream K fd) where
  open S use {pending, written}

  abbrev Typed : K.State → Type 0
  Typed s = All IsByte (pending s)

  received-Typed :
      (size : ℕ) (s s' : K.State) (buff : List ℕ)
      → Typed s
      → receive_packet K fd size s ≡ (complete buff, s')
      → All IsByte buff × Typed s'
  received-Typed size s s' buff typed run =
      let (whole, front, same) = receive_packet-complete K fd S size s s' buff run in
      let split : All IsByte (buff ++ pending s') = subst (All IsByte) front typed in
      (All-front buff (pending s') split, All-back buff (pending s') split)

  combined-arrived :
      (hdr : TemporaryPacketHeader) (o : Option TemporaryPacketBody) (p : Packet)
      → combined hdr o ≡ arrived p
      → (body : TemporaryPacketBody) × (o ≡ some body) × (combine_packet hdr body ≡ p)
  combined-arrived hdr none p h = absurd (cc)
  combined-arrived hdr (some body) p h = (body, refl, cc)

  body_arrival-arrived :
      (hdr : TemporaryPacketHeader) (r : Reception) (p : Packet)
      → body_arrival hdr r ≡ arrived p
      → (buff : List ℕ) × (body : TemporaryPacketBody) × (r ≡ complete buff)
        × (deserialize_body_packet buff hdr ≡ some body)
        × (combine_packet hdr body ≡ p)
  body_arrival-arrived hdr (complete buff) p h =
      let (body, read, same) = combined-arrived hdr (deserialize_body_packet buff hdr) p h in
      (buff, body, refl, read, same)
  body_arrival-arrived hdr failed p h = absurd (cc)
  body_arrival-arrived hdr closed p h = absurd (cc)
  body_arrival-arrived hdr Reception.undefined p h = absurd (cc)
  body_arrival-arrived hdr Reception.stuck p h = absurd (cc)

  read_body-Typed :
      (hdrbuff : List ℕ) (o : Option TemporaryPacketHeader) (s s' : K.State) (p : Packet)
      → All IsByte hdrbuff
      → Typed s
      → deserialize_header_packet e hdrbuff ≡ o
      → read_body K e fd o s ≡ (arrived p, s')
      → IsPacket p × Typed s'
  read_body-Typed hdrbuff none s s' p h typed read run = absurd (cc)
  read_body-Typed hdrbuff (some hdr) s s' p h typed read run =
      let (buff, body, whole, read_it, same) =
        body_arrival-arrived hdr (receive_packet K fd (hdr.len + 1) s).0 p (ap (λ r. r.0) run) in
      let came : receive_packet K fd (hdr.len + 1) s ≡ (complete buff, s') =
        λ i. (whole i, (run i).1) in
      let (bytes, left) = received-Typed (hdr.len + 1) s s' buff typed came in
      (
        subst IsPacket same (deserialize-IsPacket e hdrbuff buff hdr body h bytes read read_it),
        left,
      )

  after_header-Typed :
      (r : Reception) (s s₁ s' : K.State) (p : Packet)
      → Typed s
      → receive_packet K fd 5 s ≡ (r, s₁)
      → after_header K e fd r s₁ ≡ (arrived p, s')
      → IsPacket p × Typed s'
  after_header-Typed (complete buff) s s₁ s' p typed came run =
      let (bytes, left) = received-Typed 5 s s₁ buff typed came in
      read_body-Typed buff (deserialize_header_packet e buff) s₁ s' p bytes left refl run
  after_header-Typed failed s s₁ s' p typed came run = absurd (cc)
  after_header-Typed closed s s₁ s' p typed came run = absurd (cc)
  after_header-Typed Reception.undefined s s₁ s' p typed came run = absurd (cc)
  after_header-Typed Reception.stuck s s₁ s' p typed came run = absurd (cc)

  -- On a stream that holds bytes, healthy or not, if the reading of a frame gives a packet, then
  -- its type, its control byte and every element of its body are bytes, its length field is below
  -- 2^32, and what is left on the stream is bytes.
  pub read_frame-IsPacket :
      (s s' : K.State) (p : Packet)
      → All IsByte (pending s)
      → read_frame K e fd s ≡ (arrived p, s')
      → IsPacket p × All IsByte (pending s')
  unfolding read_frame
  read_frame-IsPacket s s' p typed run =
      after_header-Typed (receive_packet K fd 5 s).0 s (receive_packet K fd 5 s).1 s' p typed refl
        run

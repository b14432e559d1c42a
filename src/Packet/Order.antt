-- ===== src/Packet/Order.antt =====
-- Packets that are sent one after the other over one connection, and then received.
use sftt.Base.{
  ℕ, zero, suc, ◌+◌, ◌^◌, ◌<◌, ◌≡◌, refl, none, List, [], ◌∷◌, ◌++◌, length, All, append-nil,
  append_assoc, length-append, subst, Result, ok, ◌>>=◌,
}
use sftt.Base.Int.{ℤ, pos}
use sftt.Bytes.{Buffer}
use sftt.Packet.{
  Handler, Socket, send_sftt_packet, recv_sftt_packet, malloc_sftt_packet, header_len,
}
use sftt.Packet.Frame.{
  IsStream, Carries, body_of, frame_of, send_sftt_packet-frame, recv_sftt_packet-frame,
}

module _ {ℓ κ} {Obj : Type ℓ} {S : Type κ} (sock : Socket S) (handlers : List (Handler Obj))
    (null_obj : Obj) where
  -- A packet is sent for each type and object.
  pub send_all : S → List (ℕ × Obj) → Result S
  send_all s [] = ok s
  send_all s ((t, obj) ∷ ms) = do
    (s', _, _) ←
        send_sftt_packet sock handlers null_obj s
          (record { packet_type = t; obj = obj; content = none; data_len = pos 0 })
    send_all s' ms

  -- `n` packets are received; what is kept of them is the type, the object and the value returned.
  pub recv_all : ℕ → S → Result (List (ℕ × Obj × ℤ))
  recv_all zero s = ok []
  recv_all (suc n) s = do
    (s', sp, ret) ← recv_sftt_packet sock handlers null_obj s (malloc_sftt_packet null_obj)
    rest ← recv_all n s'
    ok ((sp.packet_type, sp.obj, ret) ∷ rest)

-- A message that its handler writes and reads.
pub record Sendable {ℓ} {Obj : Type ℓ} (handlers : List (Handler Obj)) (m : ℕ × Obj) : Type ℓ where
  pub b : ℕ
  pub bs : Buffer
  pub small : m.0 < 2 ^ 32
  pub carries : Carries handlers m.0 m.1 b bs

module _ {ℓ} {Obj : Type ℓ} (handlers : List (Handler Obj)) where
  unfoldable pub frames : (ms : List (ℕ × Obj)) → All (Sendable handlers) ms → Buffer
  frames [] h = []
  frames (m ∷ ms) h = frame_of h.0.carries.writes ++ frames ms h.1

  pub received : (ms : List (ℕ × Obj)) → All (Sendable handlers) ms → List (ℕ × Obj × ℤ)
  received [] h = []
  received (m ∷ ms) h =
      (m.0, m.1, pos (header_len + length (body_of h.0.carries.writes).bytes)) ∷ received ms h.1

-- `arrive` lets the time pass in which the bytes that are on the way arrive.
pub record Arrives {ℓ κ} {S : Type ℓ} (Holds : S → Buffer → Type κ) (Ready : S → ℕ → Type κ)
    (arrive : S → S) : Type (ℓ ⊔ κ) where
  pub arrive_law :
      (s : S) (q : Buffer) → Holds s q → Holds (arrive s) q × Ready (arrive s) (length q)

module _ {ℓ κ ι} {Obj : Type ℓ} {S : Type κ} (sock : Socket S) (Holds : S → Buffer → Type ι)
    (Room Ready : S → ℕ → Type ι) (stream : IsStream sock Holds Room Ready)
    (handlers : List (Handler Obj)) (null_obj : Obj) where
  send_all-frames :
      (ms : List (ℕ × Obj)) (h : All (Sendable handlers) ms) (s : S) (q : Buffer)
      → Holds s q
      → Room s (length (frames handlers ms h))
      → (s' : S) × (send_all sock handlers null_obj s ms ≡ ok s')
        × Holds s' (q ++ frames handlers ms h)
  unfolding send_all frames
  send_all-frames [] h s q holds room = (s, refl, rw append-nil holds)
  send_all-frames ((t, obj) ∷ ms) h s q holds room =
      let w = h.0.carries.writes in
      let rest = frames handlers ms h.1 in
      let (s1, run1, _, holds1, room1) =
        send_sftt_packet-frame sock Holds Room Ready stream handlers null_obj s q
          (record { packet_type = t; obj = obj; content = none; data_len = pos 0 }) h.0.b h.0.bs
          (length rest) holds w (subst (Room s) (length-append (frame_of w) rest) room) in
      let (s2, run2, holds2) = send_all-frames ms h.1 s1 _ holds1 room1 in
      (s2, rw run1 run2, rw (append_assoc q (frame_of w) rest) at holds2)

  recv_all-frames :
      (ms : List (ℕ × Obj)) (h : All (Sendable handlers) ms) (s : S) (q : Buffer)
      → Holds s (frames handlers ms h ++ q)
      → Ready s (length (frames handlers ms h))
      → recv_all sock handlers null_obj (length ms) s ≡ ok (received handlers ms h)
  unfolding recv_all frames received
  recv_all-frames [] h s q holds ready = refl
  recv_all-frames (m ∷ ms) h s q holds ready =
      let c = h.0.carries in
      let rest = frames handlers ms h.1 in
      let (s1, run1, holds1, ready1) =
        recv_sftt_packet-frame sock Holds Room Ready stream handlers null_obj s (rest ++ q)
          (malloc_sftt_packet null_obj) m.0 m.1 h.0.b h.0.bs (length rest) h.0.small c
          (rw append_assoc at holds)
          (subst (Ready s) (length-append (frame_of c.writes) rest) ready) in
      rw (run1, recv_all-frames ms h.1 s1 q holds1 ready1) refl

  -- Over a connection that keeps the order of its bytes, has nothing on the way and has room for all
  -- the frames, messages are all sent; once all bytes have arrived, they are received in the order of
  -- sending, each with its type and its object, and each return value is the size of the packet. The
  -- type of a message is a 32-bit pattern, and the handler of the type writes the object as at least
  -- one and fewer than 2 ^ 22 bytes and reads it from them.
  pub recv_all-send_all :
      (arrive : S → S)
      → Arrives Holds Ready arrive
      → (ms : List (ℕ × Obj)) (h : All (Sendable handlers) ms) (s : S) → Holds s []
      → Room s (length (frames handlers ms h))
      → (s' : S) × (send_all sock handlers null_obj s ms ≡ ok s')
        × (recv_all sock handlers null_obj (length ms) (arrive s') ≡ ok (received handlers ms h))
  recv_all-send_all arrive arrives ms h s holds room =
      let (s', run, holds') = send_all-frames ms h s [] holds room in
      let (holds'', ready) = arrives.arrive_law s' (frames handlers ms h) holds' in
      (s', run, recv_all-frames ms h (arrive s') [] (rw append-nil holds'') ready)

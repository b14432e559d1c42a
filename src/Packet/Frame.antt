-- ===== src/Packet/Frame.antt =====
-- A packet on the wire: what `send_sftt_packet` puts there, and `recv_sftt_packet` takes away.
use sftt.Base.{
  ℕ, ◌+◌, ◌%◌, ◌^◌, ◌<◌, ◌≡◌, refl, Bool, true, false, none, some, List, ◌∷◌, ◌++◌, length, arith,
  All, ok, eq_refl, lt→ltb, append_assoc, length-append, subst,
}
use sftt.Base.Int.{pos}
use sftt.Bytes.{Buffer, IsByte, le32}
use sftt.Bytes.Laws.{read_le32-ok, take_bytes-all}
use sftt.Encode.{sftt_buffer_encode, sftt_buffer_decode}
use sftt.Encode.Inverse.{Decoded, decode-encode, plain_encode, plain_decode}
use sftt.Packet.{
  Handler, Socket, SfttPacket, find_handler, send_sftt_packet, recv_sftt_packet,
  sftt_packet_send_header, sftt_packet_send_content, sftt_packet_recv_header,
  sftt_packet_recv_content, header_len, received_header, recv_content_of, received_content,
  sftt_packet_serialize, serialize_with, send_serialized, sftt_packet_encode_content, send_encoded,
  recv_header_then, recv_content_then, recv_decoded, sftt_packet_decode_content,
  sftt_packet_deserialize, deserialize_with, recv_deserialized,
}

-- A connection whose bytes arrive in order: `Holds s q` says that `q` is sent and not yet received.
-- A call of `send` takes all its bytes as long as there is room for them, and a call of `recv` gives
-- all the bytes it asks for where they have arrived; `Room s n` and `Ready s n` say that this is so
-- for `n` bytes. What the calls do with less room, or before the bytes arrive, is left open.
pub record IsStream {ℓ κ} {S : Type ℓ} (sock : Socket S) (Holds : S → Buffer → Type κ)
    (Room Ready : S → ℕ → Type κ) : Type (ℓ ⊔ κ) where
  pub send_law :
      (s : S) (q bytes : Buffer) (n : ℕ)
      → Holds s q
      → Room s (length bytes + n)
      → (s' : S) × (sock.send s bytes ≡ (s', pos (length bytes)))
        × Holds s' (q ++ bytes)
        × Room s' n
  pub recv_law :
      (s : S) (q bytes : Buffer) (n : ℕ) (wait : Bool)
      → Holds s (bytes ++ q)
      → Ready s (length bytes + n)
      → (s' : S) × (sock.recv s (length bytes) wait ≡ (s', some bytes)) × Holds s' q × Ready s' n

-- The serializer of one type writes an object as these bytes.
pub record Writes {ℓ} {Obj : Type ℓ} (handlers : List (Handler Obj)) (t : ℕ) (obj : Obj) (b : ℕ)
    (bs : Buffer) : Type ℓ where
  pub handler : Handler Obj
  pub found : find_handler handlers t ≡ ok (some handler)
  pub serialized : handler.serialize obj ≡ some (b ∷ bs)
  pub byte : All IsByte (b ∷ bs)
  pub short : length (b ∷ bs) < 2 ^ 22

-- It also reads the object from them.
pub record Carries {ℓ} {Obj : Type ℓ} (handlers : List (Handler Obj)) (t : ℕ) (obj : Obj) (b : ℕ)
    (bs : Buffer) : Type ℓ where
  pub writes : Writes handlers t obj b bs
  pub deserialized : writes.handler.deserialize (b ∷ bs) (length (b ∷ bs)) ≡ some obj

-- The type, the length of the encoded content, and the content.
abbrev pub frame : ℕ → Buffer → Buffer
frame t bytes = (le32 t ++ le32 (length bytes)) ++ bytes

module _ {ℓ κ} {Obj : Type ℓ} {S : Type κ} (sock : Socket S) where
  -- The header is sent, and read back, as it stands.
  send_header_step :
      (s s' : S) (sp : SfttPacket Obj) (n : ℕ)
      → sp.data_len ≡ pos n
      → n < 2 ^ 31
      → sock.send s (le32 sp.packet_type ++ le32 n) ≡ (s', pos header_len)
      → sftt_packet_send_header sock s sp ≡ ok s'
  unfolding sftt_packet_send_header
  send_header_step s s' sp n len short run =
      let e : n % 2 ^ 32 ≡ n = omega arith in
      let t = sp.packet_type in
      let enc : sftt_buffer_encode (le32 t ++ le32 n) header_len false false
          ≡ ok (record { ret = pos header_len; bytes = le32 t ++ le32 n }) =
        plain_encode (t % 256) _ in
      rw (len, e, enc, run) refl

  send_content_step :
      (s s' : S) (sp : SfttPacket Obj) (bytes : Buffer)
      → sp.data_len ≡ pos (length bytes)
      → sp.content ≡ some bytes
      → sock.send s bytes ≡ (s', pos (length bytes))
      → sftt_packet_send_content sock s sp ≡ ok s'
  unfolding sftt_packet_send_content
  send_content_step s s' sp bytes len here run =
      rw (here, len, take_bytes-all bytes, run, eq_refl (length bytes)) refl

  recv_header_step :
      (s s' : S) (sp : SfttPacket Obj) (t n : ℕ)
      → t < 2 ^ 32
      → n < 2 ^ 31
      → sock.recv s header_len false ≡ (s', some (le32 t ++ le32 n))
      → sftt_packet_recv_header sock s sp
        ≡ ok (s', record sp { packet_type = t; data_len = pos n }, pos header_len)
  unfolding sftt_packet_recv_header received_header
  recv_header_step s s' sp t n small short run =
      let hdr = le32 t ++ le32 n in
      let dec : sftt_buffer_decode hdr header_len false false
          ≡ ok (record { ret = pos header_len; bytes = hdr }) =
        plain_decode (t % 256) _ in
      rw
        (
          run,
          dec,
          read_le32-ok hdr 0 t small (refl, (refl, (refl, (refl, tt)))),
          read_le32-ok hdr 4 n (omega arith) (refl, (refl, (refl, (refl, tt)))),
          lt→ltb n (2 ^ 31) short,
        )
        refl

  recv_content_step :
      (s s' : S) (sp : SfttPacket Obj) (bytes : Buffer)
      → sp.data_len ≡ pos (length bytes)
      → sock.recv s (length bytes) true ≡ (s', some bytes)
      → sftt_packet_recv_content sock s sp
        ≡ ok (s', record sp { content = some bytes }, pos (length bytes))
  unfolding sftt_packet_recv_content recv_content_of received_content
  recv_content_step s s' sp bytes len run =
      rw (len, recv_content_of, run, eq_refl (length bytes), len) refl

-- The content of a packet as `sftt_buffer_encode` makes it, which `sftt_buffer_decode` undoes.
abbrev pub body_of {ℓ} :
    {Obj : Type ℓ} {handlers : List (Handler Obj)} {t : ℕ} {obj : Obj} {b : ℕ} {bs : Buffer}
    → Writes handlers t obj b bs
    → Decoded (b ∷ bs) true true
body_of {b = b} {bs = bs} w = decode-encode b bs true true w.byte w.short refl

-- The packet that goes over for the object.
abbrev pub frame_of {ℓ} :
    {Obj : Type ℓ} {handlers : List (Handler Obj)} {t : ℕ} {obj : Obj} {b : ℕ} {bs : Buffer}
    → Writes handlers t obj b bs
    → Buffer
frame_of {t = t} w = frame t (body_of w).bytes

length-frame :
    (t : ℕ) (bytes : Buffer) (n : ℕ)
    → length (frame t bytes) + n ≡ length (le32 t ++ le32 (length bytes)) + (length bytes + n)
length-frame t bytes n = omega (arith, length-append (le32 t ++ le32 (length bytes)) bytes)

module _ {ℓ κ ι} {Obj : Type ℓ} {S : Type κ} (sock : Socket S) (Holds : S → Buffer → Type ι)
    (Room Ready : S → ℕ → Type ι) (stream : IsStream sock Holds Room Ready)
    (handlers : List (Handler Obj)) (null_obj : Obj) where
  -- Over a connection that keeps the order of its bytes and has room for the whole frame, an object
  -- that its handler serializes to at least one and fewer than 2 ^ 22 bytes is sent: the content is
  -- encoded, the frame of its encoding is put behind what is on the way, the packet is left without
  -- content, and the rest of the room is left.
  pub send_sftt_packet-frame :
      (s : S) (q : Buffer) (sp : SfttPacket Obj) (b : ℕ) (bs : Buffer) (n : ℕ)
      → Holds s q
      → (w : Writes handlers sp.packet_type sp.obj b bs) → Room s (length (frame_of w) + n)
      → (s' : S) × (send_sftt_packet sock handlers null_obj s sp
          ≡ ok (s', record sp { content = none; data_len = pos 0 }, pos 0))
        × (sftt_buffer_encode (b ∷ bs) (length (b ∷ bs)) true true
            ≡ ok (record { ret = pos (length (body_of w).bytes); bytes = (body_of w).bytes }))
        × Holds s' (q ++ frame sp.packet_type (body_of w).bytes)
        × Room s' n
  unfolding send_sftt_packet sftt_packet_serialize serialize_with send_serialized
      sftt_packet_encode_content send_encoded
  send_sftt_packet-frame s q sp b bs n holds w room =
      let d = body_of w in
      let t = sp.packet_type in
      let sp' : SfttPacket Obj = record {
        packet_type = t;
        obj = null_obj;
        content = some d.bytes;
        data_len = pos (length d.bytes);
      } in
      let (s1, run1, holds1, room1) =
        stream.send_law s q (le32 t ++ le32 (length d.bytes)) (length d.bytes + n) holds
          (subst (Room s) (length-frame t d.bytes n) room) in
      let (s2, run2, holds2, room2) = stream.send_law s1 _ d.bytes n holds1 room1 in
      let head = send_header_step sock s s1 sp' (length d.bytes) refl d.few run1 in
      let tail_sent = send_content_step sock s1 s2 sp' d.bytes refl refl run2 in
      (
        s2,
        rw
            (
              w.found,
              w.serialized,
              d.encoded,
              lt→ltb 0 (length d.bytes) d.some_byte,
              head,
              tail_sent,
            )
            refl,
        d.encoded,
        rw append_assoc at holds2,
        room2,
      )

  -- Over a connection that keeps the order of its bytes, where the frame of an object comes first and
  -- has arrived as a whole, and the handler of its type, a 32-bit pattern, writes the object as at
  -- least one and fewer than 2 ^ 22 bytes and reads it from them: `recv_sftt_packet` returns the size
  -- of the frame, the type and the object are received, and what is behind the frame stays.
  pub recv_sftt_packet-frame :
      (s : S) (q : Buffer) (sp : SfttPacket Obj) (t : ℕ) (obj : Obj) (b : ℕ) (bs : Buffer) (n : ℕ)
      → t < 2 ^ 32
      → (c : Carries handlers t obj b bs) → Holds s (frame t (body_of c.writes).bytes ++ q)
      → Ready s (length (frame_of c.writes) + n)
      → (s' : S) × (recv_sftt_packet sock handlers null_obj s sp
          ≡ ok (
            s',
            record { packet_type = t; obj = obj; content = none; data_len = pos 0 },
            pos (header_len + length (body_of c.writes).bytes),
          ))
        × Holds s' q
        × Ready s' n
  unfolding recv_sftt_packet recv_header_then recv_content_then recv_decoded
      sftt_packet_decode_content sftt_packet_deserialize deserialize_with recv_deserialized
  recv_sftt_packet-frame s q sp t obj b bs more small c holds ready =
      let d = body_of c.writes in
      let n = length d.bytes in
      let (s1, run1, holds1, ready1) =
        stream.recv_law s (d.bytes ++ q) (le32 t ++ le32 n) (n + more) false holds
          (subst (Ready s) (length-frame t d.bytes more) ready) in
      let (s2, run2, holds2, ready2) = stream.recv_law s1 q d.bytes more true holds1 ready1 in
      let sp0 : SfttPacket Obj = record {
        packet_type = 0;
        obj = null_obj;
        content = none;
        data_len = pos 0;
      } in
      let sp1 : SfttPacket Obj = record {
        packet_type = t;
        obj = null_obj;
        content = none;
        data_len = pos n;
      } in
      let head = recv_header_step sock s s1 sp0 t n small d.few run1 in
      let body = recv_content_step sock s1 s2 sp1 d.bytes refl run2 in
      (
        s2,
        rw
            (
              head,
              body,
              lt→ltb 0 n d.some_byte,
              d.decoded,
              lt→ltb 0 (length (b ∷ bs)) (omega arith),
              c.writes.found,
              c.deserialized,
            )
            refl,
        holds2,
        ready2,
      )

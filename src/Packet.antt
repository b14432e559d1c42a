-- ===== src/Packet.antt =====
-- src/net_trans.c: packets over a stream socket. The system's socket and the table of
-- serializers are parameters.
pub mod Frame
pub mod Order
use sftt.Base.{
  ℕ, zero, suc, ◌+◌, ◌-◌, ◌^◌, Bool, true, false, Option, none, some, List, [], ◌∷◌, ◌++◌, length,
  ltb, ◌==◌, if◌then◌else◌, not, Result, ok, fault, ◌>>=◌, ◌>>◌, assert, from_option,
}
use sftt.Base.Int.{ℤ, pos, negsuc, int_of, rounds, word_of, is_pos}
use sftt.Bytes.{Buffer, le32, read_le32, take_bytes}
use sftt.Huffman.{Output}
use sftt.Encode.{sftt_buffer_encode, sftt_buffer_decode}

-- `struct serialize_handler`; a result of `none` is a return of `false`.
pub record Handler {ℓ} (Obj : Type ℓ) : Type ℓ where
  pub packet_type : ℕ
  pub serialize : Obj → Option Buffer
  pub deserialize : Buffer → ℕ → Option Obj

-- `send` and `recv`, as functions of the state of a connection. `recv` takes the number of bytes
-- asked for and whether MSG_WAITALL is set, and gives the bytes received, or `none` for -1.
pub record Socket {ℓ} (S : Type ℓ) : Type ℓ where
  pub send : S → Buffer → S × ℤ
  pub recv : S → ℕ → Bool → S × Option Buffer

-- `struct sftt_packet`; the type is a 32-bit pattern.
pub record SfttPacket {ℓ} (Obj : Type ℓ) : Type ℓ where
  pub packet_type : ℕ
  pub obj : Obj
  pub content : Option Buffer
  pub data_len : ℤ

-- The type that ends the table, -1.
abbrev pub end_of_table : ℕ
end_of_table = 2 ^ 32 - 1

-- The loop over the table; a table without its end is left.
unfoldable pub find_handler {ℓ} :
    {Obj : Type ℓ} → List (Handler Obj) → ℕ → Result (Option (Handler Obj))
find_handler [] t = fault
find_handler (h ∷ hs) t =
    let rest = find_handler hs t in
    if h.packet_type == end_of_table
    then ok none
    else if t == h.packet_type
    then ok (some h)
    else rest

module _ {ℓ} {Obj : Type ℓ} where
  pub malloc_sftt_packet : Obj → SfttPacket Obj
  malloc_sftt_packet null_obj = record {
    packet_type = 0;
    obj = null_obj;
    content = none;
    data_len = pos 0;
  }

  pub sftt_packet_free_content : SfttPacket Obj → SfttPacket Obj
  sftt_packet_free_content sp = record sp { content = none; data_len = pos 0 }

  -- The packet and the value returned.
  serialized : SfttPacket Obj → Option Buffer → SfttPacket Obj × Bool
  serialized sp none = (sp, false)
  serialized sp (some buf) = (record sp { content = some buf; data_len = pos (length buf) }, true)

  serialize_with : SfttPacket Obj → Option (Handler Obj) → SfttPacket Obj × Bool
  unfolding serialized
  serialize_with sp none = (sp, false)
  serialize_with sp (some h) = serialized sp (h.serialize sp.obj)

  pub sftt_packet_serialize : List (Handler Obj) → SfttPacket Obj → Result (SfttPacket Obj × Bool)
  unfolding serialize_with
  sftt_packet_serialize handlers sp =
      find_handler handlers sp.packet_type >>= λ h. ok (serialize_with sp h)

  deserialized : SfttPacket Obj → Option Obj → SfttPacket Obj × Bool
  deserialized sp none = (sp, false)
  deserialized sp (some obj) = (record sp { obj = obj }, true)

  deserialize_with : SfttPacket Obj → Buffer → Option (Handler Obj) → SfttPacket Obj × Bool
  unfolding deserialized
  deserialize_with sp content none = (sp, false)
  deserialize_with sp content (some h) =
      deserialized sp (h.deserialize content (rounds sp.data_len))

  pub sftt_packet_deserialize : List (Handler Obj) → SfttPacket Obj → Result (SfttPacket Obj × Bool)
  unfolding deserialize_with
  sftt_packet_deserialize handlers sp = do
    h ← find_handler handlers sp.packet_type
    content ← from_option sp.content
    ok (deserialize_with sp content h)

  -- The content that `dst` gets, and the value returned.
  pub sftt_packet_encode_content : SfttPacket Obj → SfttPacket Obj → Result (SfttPacket Obj × ℤ)
  sftt_packet_encode_content src dst = do
    content ← from_option src.content
    out ← sftt_buffer_encode content (rounds src.data_len) true true
    ok (record dst { content = some out.bytes; data_len = out.ret }, out.ret)

  pub sftt_packet_decode_content : SfttPacket Obj → SfttPacket Obj → Result (SfttPacket Obj × ℤ)
  sftt_packet_decode_content src dst = do
    content ← from_option src.content
    out ← sftt_buffer_decode content (rounds src.data_len) true true
    ok (record dst { content = some out.bytes; data_len = out.ret }, out.ret)

-- `a == b` on two `int`s.
abbrev pub same_int : ℤ → ℤ → Bool
same_int (pos a) (pos b) = a == b
same_int (negsuc a) (negsuc b) = a == b
same_int (pos a) (negsuc b) = false
same_int (negsuc a) (pos b) = false

-- PACKET_TYPE_SIZE + PACKET_LEN_SIZE
abbrev pub header_len : ℕ
header_len = 8

module _ {ℓ κ} {Obj : Type ℓ} {S : Type κ} (sock : Socket S) where
  pub sftt_packet_send_header : S → SfttPacket Obj → Result S
  sftt_packet_send_header s sp = do
    out ←
        sftt_buffer_encode (le32 sp.packet_type ++ le32 (word_of sp.data_len)) header_len false
          false
    assert (same_int out.ret (pos header_len))
    let (s', ret) = sock.send s out.bytes
    assert (same_int ret out.ret)
    ok s'

  pub sftt_packet_send_content : S → SfttPacket Obj → Result S
  sftt_packet_send_content s sp = do
    content ← from_option sp.content
    bytes ← take_bytes (rounds sp.data_len) content
    let (s', ret) = sock.send s bytes
    assert (same_int ret sp.data_len)
    ok s'

  -- From the encoded content on.
  send_encoded : S → SfttPacket Obj → SfttPacket Obj × ℤ → Result (S × SfttPacket Obj × ℤ)
  unfolding sftt_packet_send_header sftt_packet_send_content sftt_packet_free_content
  send_encoded s sp (sp', ret) =
      let sent = (do
        s1 ← sftt_packet_send_header s sp'
        s2 ← sftt_packet_send_content s1 sp'
        ok (s2, sftt_packet_free_content sp, pos 0)) in
      if is_pos ret then sent else ok (s, sp, negsuc 0)

  -- From the serialized packet on.
  send_serialized : Obj → S → SfttPacket Obj × Bool → Result (S × SfttPacket Obj × ℤ)
  unfolding send_encoded sftt_packet_encode_content malloc_sftt_packet
  send_serialized null_obj s (sp, done) =
      let sent =
        sftt_packet_encode_content sp
          (record (malloc_sftt_packet null_obj) { packet_type = sp.packet_type })
        >>= send_encoded s sp in
      if done then sent else ok (s, sp, negsuc 0)

  -- The connection, `*sp` and the value returned.
  pub send_sftt_packet :
      List (Handler Obj) → Obj → S → SfttPacket Obj → Result (S × SfttPacket Obj × ℤ)
  unfolding send_serialized sftt_packet_serialize
  send_sftt_packet handlers null_obj s sp =
      sftt_packet_serialize handlers sp >>= send_serialized null_obj s

  received_header : SfttPacket Obj → S × Option Buffer → Result (S × SfttPacket Obj × ℤ)
  received_header sp (s, none) = ok (s, sp, negsuc 0)
  received_header sp (s, some []) = ok (s, sp, pos 0)
  received_header sp (s, some (b ∷ bs)) =
      let taken = (do
        out ← sftt_buffer_decode (b ∷ bs) header_len false false
        assert (same_int out.ret (pos header_len))
        t ← read_le32 out.bytes 0
        n ← read_le32 out.bytes 4
        ok (s, record sp { packet_type = t; data_len = int_of n }, pos header_len)) in
      if length (b ∷ bs) == header_len then taken else ok (s, sp, negsuc 0)

  pub sftt_packet_recv_header : S → SfttPacket Obj → Result (S × SfttPacket Obj × ℤ)
  unfolding received_header
  sftt_packet_recv_header s sp = received_header sp (sock.recv s header_len false)

  -- What is returned for fewer bytes than `n`: 0 for none, and -1.
  received_content : SfttPacket Obj → ℕ → S × Option Buffer → Result (S × SfttPacket Obj × ℤ)
  received_content sp n (s, none) = ok (s, sp, negsuc 0)
  received_content sp n (s, some bs) =
      if length bs == n
      then ok (s, record sp { content = some bs }, pos n)
      else if length bs == 0
      then ok (s, sp, pos 0)
      else ok (s, sp, negsuc 0)

  -- A negative length is too large for the allocation, and `recv` into NULL returns -1.
  pub recv_content_of : S → SfttPacket Obj → ℤ → Result (S × SfttPacket Obj × ℤ)
  unfolding received_content
  recv_content_of s sp (pos n) = received_content sp n (sock.recv s n true)
  recv_content_of s sp (negsuc n) = ok (s, sp, negsuc 0)

  pub sftt_packet_recv_content : S → SfttPacket Obj → Result (S × SfttPacket Obj × ℤ)
  unfolding recv_content_of
  sftt_packet_recv_content s sp = recv_content_of s sp sp.data_len

  recv_deserialized : S → ℤ → SfttPacket Obj × Bool → Result (S × SfttPacket Obj × ℤ)
  unfolding sftt_packet_free_content
  recv_deserialized s recv_len (sp, done) =
      if done then ok (s, sftt_packet_free_content sp, recv_len) else ok (s, sp, negsuc 0)

  recv_decoded : List (Handler Obj) → S → ℤ → SfttPacket Obj × ℤ → Result (S × SfttPacket Obj × ℤ)
  unfolding recv_deserialized sftt_packet_deserialize
  recv_decoded handlers s recv_len (sp, ret) =
      let done = sftt_packet_deserialize handlers sp >>= recv_deserialized s recv_len in
      if is_pos ret then done else ok (s, sp, negsuc 0)

  -- From the received content on: `ret` is the size of the content.
  recv_content_then :
      List (Handler Obj) → SfttPacket Obj → S × SfttPacket Obj × ℤ → Result (S × SfttPacket Obj × ℤ)
  unfolding recv_decoded sftt_packet_decode_content
  recv_content_then handlers sp (s, sp', ret) =
      let sp1 = record sp { packet_type = sp'.packet_type } in
      let done =
        sftt_packet_decode_content sp' sp1
        >>= recv_decoded handlers s (pos (header_len + rounds ret)) in
      if is_pos ret then done else ok (s, sp, negsuc 0)

  recv_header_then :
      List (Handler Obj) → SfttPacket Obj → S × SfttPacket Obj × ℤ → Result (S × SfttPacket Obj × ℤ)
  unfolding recv_content_then sftt_packet_recv_content
  recv_header_then handlers sp (s, sp', ret) =
      let done = sftt_packet_recv_content s sp' >>= recv_content_then handlers sp in
      if is_pos ret then done else ok (s, sp, ret)

  pub recv_sftt_packet :
      List (Handler Obj) → Obj → S → SfttPacket Obj → Result (S × SfttPacket Obj × ℤ)
  unfolding recv_header_then sftt_packet_recv_header malloc_sftt_packet
  recv_sftt_packet handlers null_obj s sp =
      sftt_packet_recv_header s (malloc_sftt_packet null_obj) >>= recv_header_then handlers sp

-- ===== src/Tests/Wire.antt =====
-- Packets between two ends of a connection that does not block.
use sftt.Base.{
  ℕ, ◌+◌, ◌-◌, ◌^◌, ◌≤◌, ◌<◌, ◌≡◌, refl, true, Option, none, some, List, [], ◌∷◌, ◌++◌, length,
  take, drop, take_all, length-drop, length-append, append_assoc, append-nil, arith, ap, sym, ◌∙◌,
  ok, All,
}
use sftt.Base.Int.{pos}
use sftt.Bytes.{Buffer, le32, read_byte, read_le16, read_le32, write_bytes, take_bytes}
use sftt.Bits.{set_bit, get_bit}
use sftt.Huffman.{huffman_compress, huffman_decompress}
use sftt.Huffman.Tree.{is_null, btree_is_leaf, btree_node_count, generate_huffman_tree}
use sftt.Huffman.Codes.{get_char_codes}
use sftt.Huffman.Freq.{calc_char_freq, copy_char_freq, get_char_freq, used_chars}
use sftt.Huffman.Stream.{huffman_encode, huffman_decode}
use sftt.Crypt.{sftt_encrypt_func, sftt_decrypt_func}
use sftt.Encode.{sftt_buffer_encode, sftt_buffer_decode}
use sftt.Packet.{Handler, Socket, SfttPacket, find_handler, send_sftt_packet, recv_sftt_packet}
use sftt.Packet.Frame.{
  IsStream, Writes, Carries, body_of, frame, send_sftt_packet-frame, recv_sftt_packet-frame,
}
use sftt.Packet.Order.{Arrives, Sendable, frames, send_all, recv_all, received, recv_all-send_all}

abbrev word : Buffer
word = b'a' ∷ b'b' ∷ b'a' ∷ []

-- One 'b' and two 'a's: the table, the length and the bits of three codes, each byte shifted.
abbrev secret : Buffer
secret = 7 ∷ 6 ∷ 104 ∷ 10 ∷ 9 ∷ 10 ∷ 11 ∷ 110 ∷ 14 ∷ 14 ∷ 15 ∷ 16 ∷ 20 ∷ 18 ∷ 19 ∷ 20 ∷ 85 ∷ []

encode_word : sftt_buffer_encode word 3 true true ≡ ok (record { ret = pos 17; bytes = secret })
unfolding sftt_buffer_encode sftt_encrypt_func huffman_compress calc_char_freq generate_huffman_tree
    is_null btree_is_leaf btree_node_count get_char_codes used_chars copy_char_freq huffman_encode
    write_bytes read_byte read_le16 set_bit
encode_word = refl

decode_word : sftt_buffer_decode secret 17 true true ≡ ok (record { ret = pos 3; bytes = word })
unfolding sftt_buffer_decode sftt_decrypt_func take_bytes huffman_decompress get_char_freq
    generate_huffman_tree is_null btree_is_leaf huffman_decode read_byte read_le16 read_le32 get_bit
decode_word = refl

-- An object is a number, 0 for NULL; objects of type 3 are written as `word`.
abbrev read_word : Buffer → ℕ → Option ℕ
read_word [] n = none
read_word (b ∷ bs) n = some 7

abbrev handlers : List (Handler ℕ)
handlers =
    record { packet_type = 3; serialize = λ obj. some word; deserialize = read_word }
    ∷ record { packet_type = 2 ^ 32 - 1; serialize = λ obj. none; deserialize = λ bs n. none }
    ∷ []

Writes-word : Writes handlers 3 7 b'a' (b'b' ∷ b'a' ∷ [])
unfolding find_handler
Writes-word = record {
  handler = _;
  found = refl;
  serialized = refl;
  byte = (omega arith, (omega arith, (omega arith, tt)));
  short = omega arith;
}

Carries-word : Carries handlers 3 7 b'a' (b'b' ∷ b'a' ∷ [])
unfolding Writes-word
Carries-word = record { writes = Writes-word; deserialized = refl }

-- A connection that does not block: the bytes that have arrived, those on the way, and the room that
-- is left.
record Line : Type 0 where
  arrived : Buffer
  flight : Buffer
  room : ℕ

abbrev line : Socket Line
line = record {
  send = λ s bytes. (
    record {
      arrived = s.arrived;
      flight = s.flight ++ take s.room bytes;
      room = s.room - length bytes;
    },
    pos (length (take s.room bytes)),
  );
  recv = λ s n wait. (record s { arrived = drop n s.arrived }, some (take n s.arrived));
}

abbrev Holds : Line → Buffer → Type 0
Holds s q = s.arrived ++ s.flight ≡ q

abbrev Room : Line → ℕ → Type 0
Room s n = n ≤ s.room

abbrev Ready : Line → ℕ → Type 0
Ready s n = n ≤ length s.arrived

abbrev arrive : Line → Line
arrive s = record s { arrived = s.arrived ++ s.flight; flight = [] }

-- What is taken off the bytes that have arrived.
taken :
    (bytes q xs ys : Buffer)
    → length bytes ≤ length xs
    → xs ++ ys ≡ bytes ++ q
    → (take (length bytes) xs ≡ bytes) × (drop (length bytes) xs ++ ys ≡ q)
taken [] q xs ys le e = (refl, e)
taken (b ∷ bytes) q [] ys le e = absurd (omega (arith, le))
taken (b ∷ bytes) q (x ∷ xs) ys le e =
    let hd : x ≡ b = cc in
    let tl : xs ++ ys ≡ bytes ++ q = cc in
    let (front, back) = taken bytes q xs ys (omega (arith, le)) tl in
    (ap (λ t. x ∷ t) front ∙ ap (λ y. y ∷ bytes) hd, back)

line-IsStream : IsStream line Holds Room Ready
line-IsStream = record {
  send_law = λ s q bytes n holds room.
      let all = take_all s.room bytes (omega (arith, room)) in
      (
        (line.send s bytes).0,
        ap (λ t. ((line.send s bytes).0, pos (length t))) all,
        ap (λ t. s.arrived ++ (s.flight ++ t)) all
            ∙ sym (append_assoc s.arrived s.flight bytes)
            ∙ ap (λ t. t ++ bytes) holds,
        omega (arith, room),
      );
  recv_law = λ s q bytes n wait holds ready.
      let (front, back) = taken bytes q s.arrived s.flight (omega (arith, ready)) holds in
      (
        (line.recv s (length bytes) wait).0,
        ap (λ t. ((line.recv s (length bytes) wait).0, some t)) front,
        back,
        omega (arith, ready, length-drop (length bytes) s.arrived),
      );
}

line-Arrives : Arrives Holds Ready arrive
line-Arrives = record {
  arrive_law = λ s q holds.
      (append-nil (s.arrived ++ s.flight) ∙ holds, omega (arith, ap (length {A = ℕ}) holds));
}

sendable_word : Sendable handlers (3, 7)
sendable_word = record {
  b = b'a';
  bs = b'b' ∷ b'a' ∷ [];
  small = omega arith;
  carries = Carries-word;
}

abbrev packet : SfttPacket ℕ
packet = record { packet_type = 3; obj = 7; content = none; data_len = pos 0 }

-- The frame of the word.
abbrev body : Buffer
body = (body_of Writes-word).bytes

frame_small : length (frame 3 body) < 2 ^ 32
frame_small =
    omega (arith, length-append (le32 3 ++ le32 (length body)) body, (body_of Writes-word).few)

abbrev quiet : Line
quiet = record { arrived = []; flight = []; room = 2 ^ 40 }

two_words : All (Sendable handlers) ((3, 7) ∷ (3, 7) ∷ [])
two_words = (sendable_word, (sendable_word, tt))

frames_small : length (frames handlers ((3, 7) ∷ (3, 7) ∷ []) two_words) ≤ 2 ^ 40
unfolding frames two_words sendable_word Carries-word
frames_small = omega (
  arith,
  length-append (frame 3 body) (frame 3 body ++ []),
  length-append (frame 3 body) [],
  frame_small,
)

recv_all-send_all_example :
    (s' : Line) × (send_all line handlers 0 quiet ((3, 7) ∷ (3, 7) ∷ []) ≡ ok s')
    × (recv_all line handlers 0 2 (arrive s')
        ≡ ok (received handlers ((3, 7) ∷ (3, 7) ∷ []) two_words))
recv_all-send_all_example =
    recv_all-send_all line Holds Room Ready line-IsStream handlers 0 arrive line-Arrives
      ((3, 7) ∷ (3, 7) ∷ []) two_words quiet refl frames_small

send_sftt_packet-frame_example :
    (s' : Line) × (send_sftt_packet line handlers 0 quiet packet
      ≡ ok (s', record packet { content = none; data_len = pos 0 }, pos 0))
    × (sftt_buffer_encode word 3 true true ≡ ok (record { ret = pos (length body); bytes = body }))
    × Holds s' ([] ++ frame 3 body)
    × Room s' 5
send_sftt_packet-frame_example =
    send_sftt_packet-frame line Holds Room Ready line-IsStream handlers 0 quiet [] packet b'a'
      (b'b' ∷ b'a' ∷ []) 5 refl Writes-word (omega (arith, frame_small))

-- The frame and one more byte have arrived.
abbrev waiting : Line
waiting = record { arrived = frame 3 body ++ 9 ∷ []; flight = []; room = 0 }

recv_sftt_packet-frame_example :
    (s' : Line) × (recv_sftt_packet line handlers 0 waiting packet
      ≡ ok (
        s',
        record { packet_type = 3; obj = 7; content = none; data_len = pos 0 },
        pos (8 + length body),
      ))
    × Holds s' (9 ∷ [])
    × Ready s' 1
unfolding Carries-word
recv_sftt_packet-frame_example =
    recv_sftt_packet-frame line Holds Room Ready line-IsStream handlers 0 waiting (9 ∷ []) packet 3
      7 b'a' (b'b' ∷ b'a' ∷ []) 1 (omega arith) Carries-word (append-nil (frame 3 body ++ 9 ∷ []))
      (omega (arith, length-append (frame 3 body) (9 ∷ [])))

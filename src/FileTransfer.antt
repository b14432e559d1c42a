-- ===== src/FileTransfer.antt =====
-- src/file_send.c and src/file_recv.c: `send_file_by_put_req` and `recv_file_from_put_req` for one
-- path, as two programs that exchange packets. A turn takes or sends one packet; packets arrive
-- whole and in order, which src/net_trans.c is for. `md5` is the digest of a file. `fopen` for
-- reading succeeds on a directory, of which nothing can be read, and `fopen` for writing fails on it.
pub mod Reachable
pub mod Config
pub mod Safety
pub mod Delivery
use sftt.Base.{
  ℕ, zero, suc, ◌+◌, ◌%◌, ◌^◌, Bool, true, false, ◌&&◌, ◌||◌, not, Option, none, some, List, [],
  ◌∷◌, ◌++◌, length, take, drop, ltb, ◌==◌, if◌then◌else◌,
}
use sftt.Base.Int.{slt32}
use sftt.Base.Same.{same_bytes}

-- The status of a `put_resp`: the three that these functions tell apart.
pub data Status : Type 0 where
  resp_ok : Status
  resp_continue : Status
  resp_internal_err : Status

-- A `put_req` with its entry. The content is as long as `this_size` says.
pub record PutReq : Type 0 where
  pub is_dir : Bool
  pub content : List ℕ
  pub total_size : ℕ
  pub need_reply : Bool

-- What stands under the path on the receiver's disk.
pub data Entry : Type 0 where
  absent : Entry
  dir : Entry
  file : (bytes : List ℕ) → Entry

abbrev pub file_existed : Entry → Bool
file_existed absent = false
file_existed dir = true
file_existed (file bytes) = true

-- The path that is sent, and the name it is to have.
pub record Source : Type 0 where
  pub is_dir : Bool
  pub is_last : Bool
  pub content : List ℕ
  pub name : List ℕ

-- Where the sender stands. `rest` is not read yet, `eof` is `feof`; a call that is over has
-- returned something other than -1, or -1.
pub data Sender : Type 0 where
  naming : Sender
  awaiting_name : Sender
  sending_md5 : Sender
  awaiting_md5 : Sender
  sending : (rest : List ℕ) → Sender
  awaiting_block : (rest : List ℕ) (eof : Bool) → Sender
  sent : (success : Bool) → Sender

-- Where the receiver stands, with the digest, the size and the bytes it has.
pub data Receiver : Type 0 where
  awaiting_req : Receiver
  awaiting_digest : Receiver
  receiving : (md5 : List ℕ) (total : ℕ) (written : List ℕ) → Receiver
  received : (success : Bool) → Receiver

-- Both programs, the packets on the way to either, and the disk.
pub record Transfer : Type 0 where
  pub sender : Sender
  pub requests : List PutReq
  pub replies : List Status
  pub receiver : Receiver
  pub disk : Entry

-- A packet is sent.
abbrev pub post : Transfer → Sender → PutReq → Transfer
post t s r = record t { sender = s; requests = t.requests ++ r ∷ [] }

-- The constants of a build, and what is outside: the size of a block, whether each block is
-- answered (CONFIG_RESP_PER_FILE_BLOCK), the digest, and whether the receiver can create the path.
pub record Setting : Type 0 where
  pub block : ℕ
  pub per_block : Bool
  pub md5 : List ℕ → List ℕ
  pub can_create : Bool

module _ (env : Setting) (src : Source) where
  abbrev pub request : List ℕ → Bool → PutReq
  request content need_reply = record {
    is_dir = src.is_dir;
    content = content;
    total_size = length src.content;
    need_reply = need_reply;
  }

  -- The test of the loop.
  abbrev pub next_block : List ℕ → Bool → Sender
  next_block rest eof = if eof then sent true else sending rest

  -- `feof` holds once `fread` has found fewer bytes than it asks for.
  abbrev pub send_block : List ℕ → Transfer → Transfer
  send_block rest t =
      let eof = ltb (length rest) env.block in
      let reply = env.per_block || (src.is_last && eof) in
      let left = drop env.block rest in
      post t (if reply then awaiting_block left eof else next_block left eof)
        (request (take env.block rest) reply)

  -- An answer, and where the sender goes on.
  abbrev pub on_reply : Sender → Status → Sender
  on_reply awaiting_name resp_ok = if src.is_dir then sent true else sending_md5
  on_reply awaiting_name other = sent false
  on_reply awaiting_md5 resp_ok = sent true
  on_reply awaiting_md5 other = sending src.content
  on_reply (awaiting_block rest eof) resp_ok = next_block rest eof
  on_reply (awaiting_block rest eof) other = sent eof
  on_reply s other = s

  abbrev pub take_reply : Transfer → List Status → Option Transfer
  take_reply t [] = none
  take_reply t (r ∷ rs) = some (record t { sender = on_reply t.sender r; replies = rs })

  abbrev pub sender_at : Sender → Transfer → Option Transfer
  sender_at naming t = some (post t awaiting_name (request src.name true))
  sender_at awaiting_name t = take_reply t t.replies
  sender_at sending_md5 t = some (post t awaiting_md5 (request (env.md5 src.content) true))
  sender_at awaiting_md5 t = take_reply t t.replies
  sender_at (sending rest) t = some (send_block rest t)
  sender_at (awaiting_block rest eof) t = take_reply t t.replies
  sender_at (sent success) t = none

  -- A turn of the sender; none while it waits for an answer, and when it has returned.
  abbrev pub send_file_by_put_req : Transfer → Option Transfer
  send_file_by_put_req t = sender_at t.sender t

module _ (env : Setting) where
  abbrev pub same_file : Entry → List ℕ → Bool
  same_file absent m = false
  same_file dir m = same_bytes (env.md5 []) m
  same_file (file bytes) m = same_bytes (env.md5 bytes) m

  abbrev pub answer : Transfer → Receiver → Entry → Status → Transfer
  answer t r d s = record t { receiver = r; disk = d; replies = t.replies ++ s ∷ [] }

  -- A directory is answered with RESP_OK whether or not it could be made.
  abbrev pub recv_dir : Transfer → Transfer
  recv_dir t =
      answer t (received true)
        (if file_existed t.disk then t.disk else if env.can_create then dir else absent) resp_ok

  abbrev pub recv_name : Transfer → Transfer
  recv_name t =
      if file_existed t.disk
      then answer t awaiting_digest t.disk resp_ok
      else if env.can_create
      then answer t awaiting_digest (file []) resp_ok
      else answer t (received false) absent resp_internal_err

  -- `fopen` with "w+" empties a file, and fails on a directory.
  abbrev pub open_file : Transfer → PutReq → Entry → Transfer
  open_file t r dir = answer t (received false) dir resp_continue
  open_file t r other = answer t (receiving r.content r.total_size []) (file []) resp_continue

  abbrev pub recv_digest : Transfer → PutReq → Transfer
  recv_digest t r =
      if same_file t.disk r.content
      then answer t (received true) t.disk resp_ok
      else open_file t r t.disk

  -- The tests at the end of the loop, and behind it. `recv_size` and `total_size` are `int`s.
  abbrev pub next_receiver : List ℕ → ℕ → List ℕ → Receiver
  next_receiver m total written =
      if slt32 (length written % 2 ^ 32) (total % 2 ^ 32)
      then receiving m total written
      else received ((length written % 2 ^ 32 == total % 2 ^ 32) && same_file (file written) m)

  abbrev pub recv_block : Transfer → PutReq → List ℕ → ℕ → List ℕ → Transfer
  recv_block t r m total written =
      let now = written ++ r.content in
      record t {
        receiver = next_receiver m total now;
        disk = file now;
        replies = if r.need_reply then t.replies ++ resp_ok ∷ [] else t.replies;
      }

  abbrev pub on_request : Receiver → PutReq → Transfer → Transfer
  on_request awaiting_req r t = if r.is_dir then recv_dir t else recv_name t
  on_request awaiting_digest r t = recv_digest t r
  on_request (receiving m total written) r t = recv_block t r m total written
  on_request (received success) r t = t

  abbrev pub take_request : Transfer → List PutReq → Option Transfer
  take_request t [] = none
  take_request t (r ∷ rs) = some (on_request t.receiver r (record t { requests = rs }))

  abbrev pub receiver_at : Receiver → Transfer → Option Transfer
  receiver_at (received success) t = none
  receiver_at other t = take_request t t.requests

  -- A turn of the receiver; none while it waits for a packet, and when it has returned.
  abbrev pub recv_file_from_put_req : Transfer → Option Transfer
  recv_file_from_put_req t = receiver_at t.receiver t

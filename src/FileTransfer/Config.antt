-- ===== src/FileTransfer/Config.antt =====
-- The states that the exchange of one file can be in (src/file_send.c, src/file_recv.c).
use sftt.Base.{
  ℕ, ◌≡◌, refl, Bool, true, false, ◌&&◌, List, [], ◌∷◌, ◌++◌, append_assoc, append-nil, length, ◌⊎◌,
  ap, ◌∙◌, sym, arith,
}
use sftt.FileTransfer.{
  Status, resp_ok, resp_continue, PutReq, Entry, absent, dir, file, Source, Sender, naming,
  awaiting_name, sending_md5, awaiting_md5, sending, awaiting_block, sent, awaiting_req,
  awaiting_digest, receiving, received, Transfer, Setting, request,
}
use sftt.FileTransfer.Reachable.{conf}

-- All bytes of the packets, in order.
abbrev pub contents : List PutReq → List ℕ
contents [] = []
contents (r ∷ q) = r.content ++ contents q

pub contents-snoc :
    (q : List PutReq) (r : PutReq) → contents (q ++ r ∷ []) ≡ contents q ++ r.content
contents-snoc [] r = append-nil r.content
contents-snoc (s ∷ q) r =
    ap (λ t. s.content ++ t) (contents-snoc q r)
    ∙ sym (append_assoc s.content (contents q) r.content)

pub full_prefix : (xs ys zs : List ℕ) → xs ++ ys ≡ zs → length xs ≡ length zs → xs ≡ zs
full_prefix [] [] zs e n = e
full_prefix [] (y ∷ ys) [] e n = cc
full_prefix [] (y ∷ ys) (z ∷ zs) e n = absurd (omega (arith, n))
full_prefix (x ∷ xs) ys [] e n = cc
full_prefix (x ∷ xs) ys (z ∷ zs) e n =
    let hd : x ≡ z = cc in
    let tl : xs ++ ys ≡ zs = cc in
    rw hd (ap (λ t. z ∷ t) (full_prefix xs ys zs tl (omega (arith, n))))

pub and_left : (a b : Bool) → (a && b) ≡ true → a ≡ true
and_left true b h = refl
and_left false b h = h

pub done_inj : (b : Bool) → received b ≡ received true → b ≡ true
done_inj b e = cc

-- The bytes that the sender has not read.
pub data RestOf : Sender → List ℕ → Type 0 where
  at_block : (rest : List ℕ) → RestOf (sending rest) rest
  at_reply : (rest : List ℕ) (eof : Bool) → RestOf (awaiting_block rest eof) rest
  at_end : (b : Bool) (rest : List ℕ) → RestOf (sent b) rest

module _ (env : Setting) (src : Source) where
  -- The file is there, or one with its digest was there before; or a directory was, and the digest
  -- is that of no bytes.
  abbrev pub Arrived : Entry → Type 0
  Arrived absent = ⊥
  Arrived dir = env.md5 [] ≡ env.md5 src.content
  Arrived (file bytes) = (bytes ≡ src.content) ⊎ (env.md5 bytes ≡ env.md5 src.content)

  abbrev pub ArrivedIf : Bool → Entry → Type 0
  ArrivedIf true d = Arrived d
  ArrivedIf false d = Unit {0}

  pub data Config : Transfer → Type 0 where
    at_start : (d : Entry) → Config (conf naming [] [] awaiting_req d)
    named :
        (d : Entry)
        → Config (conf awaiting_name (request env src src.name true ∷ []) [] awaiting_req d)
    answered : (d : Entry) → Config (conf awaiting_name [] (resp_ok ∷ []) awaiting_digest d)
    created : (d : Entry) → Config (conf sending_md5 [] [] awaiting_digest d)
    digest_sent :
        (d : Entry)
        → Config (
            conf awaiting_md5
              (request env src (env.md5 src.content) true ∷ [])
              []
              awaiting_digest
              d)
    asked : Config (
        conf awaiting_md5 []
          (resp_continue ∷ [])
          (receiving (env.md5 src.content) (length src.content) [])
          (file []))
    in_blocks :
        (s : Sender) (q : List PutReq) (rs : List Status) (written rest : List ℕ)
        → RestOf s rest
        → written ++ (contents q ++ rest) ≡ src.content
        → Config (
            conf s q rs
              (receiving (env.md5 src.content) (length src.content) written)
              (file written))
    over :
        (s : Sender) (q : List PutReq) (rs : List Status) (b : Bool) (d : Entry)
        → ArrivedIf b d
        → Config (conf s q rs (received b) d)

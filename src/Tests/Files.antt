-- ===== src/Tests/Files.antt =====
-- Files of two and of three bytes, in blocks of two.
use sftt.Base.{ℕ, ◌≡◌, refl, true, false, none, List, [], ◌∷◌, arith}
use sftt.FileTransfer.{
  absent, file, Source, Setting, Transfer, sent, awaiting_block, received, send_file_by_put_req,
  recv_file_from_put_req,
}
use sftt.FileTransfer.Reachable.{conf, IsReachable}
use sftt.FileTransfer.Config.{Arrived}
use sftt.FileTransfer.Safety.{received-Arrived}
use sftt.FileTransfer.Delivery.{delivers, last_block-stuck}

-- The digest of a file is the file.
abbrev by_two : Setting
by_two = record { block = 2; per_block = false; md5 = λ xs. xs; can_create = true }

abbrev sent_file : List ℕ → Source
sent_file xs = record { is_dir = false; is_last = true; content = xs; name = b'f' ∷ [] }

abbrev three_bytes : List ℕ
three_bytes = 1 ∷ 2 ∷ 3 ∷ []

delivers_example :
    IsReachable by_two
      (sent_file three_bytes)
      absent
      (conf (sent true) [] [] (received true) (file three_bytes))
delivers_example =
    delivers by_two (sent_file three_bytes) 1 1 (omega arith) refl refl refl refl (omega arith)
      (omega arith)

received-Arrived_example : Arrived by_two (sent_file three_bytes) (file three_bytes)
received-Arrived_example =
    received-Arrived by_two (sent_file three_bytes) absent
      (conf (sent true) [] [] (received true) (file three_bytes)) (omega arith) refl
      (delivers by_two (sent_file three_bytes) 1 1 (omega arith) refl refl refl refl (omega arith)
        (omega arith))
      refl

last_block-stuck_example :
    (t : Transfer) × IsReachable by_two (sent_file (1 ∷ 2 ∷ [])) absent t
    × (t.receiver ≡ received true)
    × (t.sender ≡ awaiting_block [] true)
    × (send_file_by_put_req by_two (sent_file (1 ∷ 2 ∷ [])) t ≡ none)
    × (recv_file_from_put_req by_two t ≡ none)
last_block-stuck_example =
    last_block-stuck by_two (sent_file (1 ∷ 2 ∷ [])) 0 (omega arith) refl refl refl refl refl
      (omega arith)

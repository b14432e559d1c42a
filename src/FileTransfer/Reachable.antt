-- ===== src/FileTransfer/Reachable.antt =====
-- The states that the exchange of one path can come to, in any order of the turns.
use sftt.Base.{◌≡◌, some, List, []}
use sftt.FileTransfer.{
  Status, PutReq, Entry, Source, Sender, naming, Receiver, awaiting_req, Transfer, Setting,
  send_file_by_put_req, recv_file_from_put_req,
}

abbrev pub conf : Sender → List PutReq → List Status → Receiver → Entry → Transfer
conf s q rs r d = record { sender = s; requests = q; replies = rs; receiver = r; disk = d }

-- Before the first packet, with anything on the receiver's disk.
abbrev pub start : Entry → Transfer
start d = conf naming [] [] awaiting_req d

module _ (env : Setting) (src : Source) where
  pub data Turn (t u : Transfer) : Type 0 where
    sends : send_file_by_put_req env src t ≡ some u → Turn t u
    receives : recv_file_from_put_req env t ≡ some u → Turn t u

  pub data IsReachable (d : Entry) : Transfer → Type 0 where
    started : IsReachable d (start d)
    turned : (t u : Transfer) → IsReachable d t → Turn t u → IsReachable d u

-- ===== src/Tests/Transfers.antt =====
-- A file of five bytes, in chunks of two.
use cranesps.Base.{string_key, ℕ, ◌≡◌, ◌≢◌, refl, true, false, List, [], ◌∷◌, arith, ltb}
use cranesps.Base.StdMap.{lookup, set, at_or}
use cranesps.FileNode.Chunks.{total_chunks}
use cranesps.FileNode.Transfer.{
  Receiver, Sender, thrown, start_sender, start_receiver, serve, request, fetch_loop, lost, begin,
  next,
}
use cranesps.FileNode.Transfer.Pieces.{first_chunks}
use cranesps.FileNode.Transfer.Complete.{transfer_completes}
use cranesps.FileNode.Transfer.Losses.{transfer_safe}

abbrev five_bytes : List ℕ
five_bytes = 104 ∷ 101 ∷ 108 ∷ 108 ∷ 111 ∷ []

abbrev nothing : Receiver
nothing = record { files = []; client_chunk_count = [] }

abbrev first_lost : Sender
first_lost = (serve (request "f" (start_receiver "f" nothing)) (start_sender "f" five_bytes 2)).0

transfer_safe_example :
    let r = start_receiver "f" nothing in
    (at_or "f" [] r.files ≡ first_chunks 2 (request "f" r) five_bytes)
    × (first_lost.phase ≢ thrown)
    × (ltb (request "f" r) (total_chunks 5 2) ≡ false → at_or "f" [] r.files ≡ five_bytes)
unfolding total_chunks lookup set
transfer_safe_example =
    transfer_safe "f" five_bytes 2 nothing (start_receiver "f" nothing) first_lost (omega arith)
      (omega arith)
      (next begin (lost (start_receiver "f" nothing) (start_sender "f" five_bytes 2) refl))

transfer_completes_example :
    (r : Receiver) × (s : Sender) × (fetch_loop
        (total_chunks 5 2)
        "f"
        (total_chunks 5 2)
        (start_receiver "f" nothing)
        (start_sender "f" five_bytes 2)
      ≡ (r, s, true))
    × (at_or "f" [] r.files ≡ five_bytes)
unfolding lookup
transfer_completes_example =
    transfer_completes "f" five_bytes 2 nothing (omega arith) (omega arith) refl

-- ===== src/FileNode/Transfer/Complete.antt =====
-- A transfer in which every message arrives completes.
use cranesps.Base.{
  string_key, ℕ, zero, suc, ◌+◌, ◌/◌, ◌*◌, ◌≤◌, ◌<◌, String, ◌≡◌, ◌≢◌, refl, sym, ap, subst, ◌∙◌,
  inl, inr, true, none, List, [], ◌++◌, arith, length, ltb, Bool-cases,
}
use cranesps.Base.Text.{str_eq_iff}
use cranesps.Base.StdMap.{at_or, lookup-set}
use cranesps.FileNode.Chunks.{total_chunks}
use cranesps.FileNode.Transfer.{
  Receiver, Sender, serving, done, start_sender, start_receiver, serve, serve_chunk, request,
  accept, fetch_loop,
}
use cranesps.FileNode.Transfer.Pieces.{first_chunks, before-total, first-total}
use cranesps.FileNode.Transfer.Safety.{Phase-cases, Side, Stored, Side-serve, recv-piece}
use cranesps.FileNode.Transfer.Losses.{InStep, InStep-start, InStep-round}

module _ (filename : String) (content old : List ℕ) (size : ℕ) where
  still-serving :
      (k : ℕ) (s : Sender)
      → k * size < length content
      → Side filename content size k s
      → s.served ≡ k
      → s.phase ≢ done
      → s.phase ≡ serving
  still-serving k s inside side same live = elim (Phase-cases s.phase) [
    | inl (inl now) ↦ now
    | inl (inr last) ↦
        let past : length content < k * size =
          subst (λ j. length content < j * size) same (side.ended last) in
        ground arith
    | inr (inl over) ↦ elim (live over) [ ]
    | inr (inr gone) ↦ elim (side.no_throw gone) [ ]
  ]

  serve-live :
      (k : ℕ) (s : Sender)
      → s.phase ≡ serving
      → s.served ≡ k
      → ((serve k s).1 ≢ none) × ((serve k s).0.phase ≢ done)
  unfolding serve serve_chunk
  serve-live k s now first =
      let form : serve k s ≡ serve_chunk k s = rw now refl in
      rw form (λ e. ground arith, λ e. ground arith)

  full-total :
      (r : Receiver)
      → 0 < size
      → length content / size < 2147483648
      → Stored filename content size old r
      → request filename r ≡ total_chunks (length content) size
      → at_or filename [] r.files ≡ old ++ content
  full-total r pos small st full =
      st
      ∙ ap (λ t. old ++ t)
          (ap (λ k. first_chunks size k content) full ∙ first-total size content pos small)

  fetch-total :
      (fuel : ℕ) (r : Receiver) (s : Sender)
      → 0 < size
      → length content / size < 2147483648
      → InStep filename content old size r s
      → s.served ≡ request filename r
      → s.phase ≢ done
      → request filename r ≤ total_chunks (length content) size
      → total_chunks (length content) size ≤ request filename r + fuel
      → (r2 : Receiver) × (s2 : Sender) × (fetch_loop fuel filename
            (total_chunks (length content) size)
            r
            s
          ≡ (r2, s2, true))
        × (at_or filename [] r2.files ≡ old ++ content)
  unfolding fetch_loop
  fetch-total zero r s pos small (side, st) same live room enough =
      let full : request filename r ≡ total_chunks (length content) size = omega arith in
      (r, s, ground arith, full-total r pos small st full)
  fetch-total (suc fuel) r s pos small (side, st) same live room enough =
      let k = request filename r in
      let total = total_chunks (length content) size in
      elim (Bool-cases (ltb k total)) [
        | inr full ↦ (r, s, rw full refl, full-total r pos small st (ground arith))
        | inl more ↦
            let inside = before-total size k (length content) pos (ground arith) small in
            let now : s.phase ≡ serving = still-serving k s inside side same live in
            let (replied, lives) = serve-live k s now same in
            let (after, answer) = Side-serve filename content size k s inside side in
            elim answer [
              | inl no_reply ↦ elim (replied no_reply) [ ]
              | inr (reply, served) ↦
                  let (count, file) = recv-piece filename content size old r st in
                  let count2 : request filename (accept (serve k s).1 r) ≡ suc k = rw reply count in
                  let (r2, s2, run, whole) =
                    fetch-total fuel (accept (serve k s).1 r) (serve k s).0 pos small
                      (InStep-round filename content old size r s inside (side, st)).0
                      (served ∙ sym count2) lives (ground arith) (omega (arith, count2, enough)) in
                  (r2, s2, rw more run, whole)
            ]
      ]

-- Where every message arrives, with a positive chunk size, less than 2 ^ 31 whole chunks and no
-- bytes under the file's name on the receiver before, the client's loop ends after as many rounds
-- as there are chunks, and the receiver has the file.
pub transfer_completes :
    (filename : String) (content : List ℕ) (size : ℕ) (r0 : Receiver)
    → 0 < size
    → length content / size < 2147483648
    → at_or filename [] r0.files ≡ []
    → (r : Receiver) × (s : Sender) × (fetch_loop
          (total_chunks (length content) size)
          filename
          (total_chunks (length content) size)
          (start_receiver filename r0)
          (start_sender filename content size)
        ≡ (r, s, true))
      × (at_or filename [] r.files ≡ content)
transfer_completes filename content size r0 pos small clean =
    let count : request filename (start_receiver filename r0) ≡ 0 =
      ground (
        arith,
        lookup-set filename filename 0 r0.client_chunk_count,
        str_eq_iff filename filename,
      ) in
    fetch-total filename content [] size (total_chunks (length content) size)
      (start_receiver filename r0) (start_sender filename content size) pos small
      (InStep-start filename content [] size r0 clean) (sym count) (λ e. ground arith)
      (omega (arith, count)) (omega (arith, count))

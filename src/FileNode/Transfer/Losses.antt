-- ===== src/FileNode/Transfer/Losses.antt =====
-- A transfer in which messages are lost: what every such transfer keeps.
use cranesps.Base.{
  append_nil, string_key, ℕ, suc, ◌/◌, ◌*◌, ◌≤◌, ◌<◌, String, ◌≡◌, ◌≢◌, refl, sym, ap, subst, ◌∙◌,
  inl, inr, false, List, [], ◌++◌, arith, length, ltb,
}
use cranesps.Base.Text.{str_eq_iff}
use cranesps.Base.StdMap.{at_or, lookup-set}
use cranesps.FileNode.Chunks.{total_chunks}
use cranesps.FileNode.Transfer.{
  Receiver, Sender, Phase, serving, last_piece, done, thrown, start_sender, start_receiver,
  recv_next_chunk, serve, time_out, expired, request, accept, Step, arrives, lost, cut, expires,
  Reach, begin, next,
}
use cranesps.FileNode.Transfer.Pieces.{first_chunks, before-total, first-total}
use cranesps.FileNode.Transfer.Safety.{Side, Stored, Side-serve, Side-ahead, recv-piece}

module _ (filename : String) (content old : List ℕ) (size : ℕ) where
  -- What holds between the receiver and the sender after any number of rounds.
  abbrev pub InStep : Receiver → Sender → Type 0
  InStep r s =
      Side filename content size (request filename r) s × Stored filename content size old r

  pub InStep-start :
      (r : Receiver)
      → at_or filename [] r.files ≡ old
      → InStep (start_receiver filename r) (start_sender filename content size)
  InStep-start r o =
      let zero_count : request filename (start_receiver filename r) ≡ 0 =
        rw (lookup-set filename filename 0 r.client_chunk_count)
          (ground (arith, str_eq_iff filename filename)) in
      (
        rw zero_count (record {
          same_name = refl;
          same_size = refl;
          near = inl refl;
          unread = refl;
          running = λ e. refl;
          ended = λ e. ground arith;
          no_throw = λ e. ground arith;
        }),
        rw zero_count (o ∙ sym (append_nil old)),
      )

  -- A round whose reply arrives.
  pub InStep-round :
      (r : Receiver) (s : Sender)
      → request filename r * size < length content
      → InStep r s
      → InStep (accept (serve (request filename r) s).1 r) (serve (request filename r) s).0
        × (request filename (accept (serve (request filename r) s).1 r) ≤ suc (request filename r))
  InStep-round r s more (side, st) =
      let (after, answer) = Side-serve filename content size (request filename r) s more side in
      elim answer [
        | inl no_reply ↦ rw no_reply ((after, st), omega arith)
        | inr (reply, served) ↦
            let (count, file) = recv-piece filename content size old r st in
            rw reply (
              (
                subst (λ k. Side filename content size k (serve (request filename r) s).0)
                    (sym count)
                    (Side-ahead filename content size (request filename r) _ served after),
                file,
              ),
              omega (arith, count),
            )
      ]

  expired-safe : (p : Phase) → p ≢ thrown → expired p ≢ thrown
  expired-safe serving n = λ e. ground arith
  expired-safe last_piece n = λ e. ground arith
  expired-safe done n = λ e. ground arith
  expired-safe thrown n = n

  Side-expired :
      (k : ℕ) (s : Sender)
      → Side filename content size k s
      → Side filename content size k (time_out s)
  Side-expired k s side = record {
    same_name = side.same_name;
    same_size = side.same_size;
    near = side.near;
    unread = side.unread;
    running = λ e. ground arith;
    ended = λ e. ground arith;
    no_throw = expired-safe s.phase side.no_throw;
  }

  Kept : Receiver → Sender → Type 0
  Kept r s = InStep r s × (request filename r ≤ total_chunks (length content) size)

  Kept-Step :
      {r : Receiver} {s : Sender} {r2 : Receiver} {s2 : Sender}
      → 0 < size
      → length content / size < 2147483648
      → Step filename (total_chunks (length content) size) r s r2 s2
      → Kept r s
      → Kept r2 s2
  unfolding Kept
  Kept-Step pos small (arrives r s more) (both, room) =
      let k = request filename r in
      let inside = before-total size k (length content) pos (ground arith) small in
      let (after, step) = InStep-round r s inside both in (after, ground arith)
  Kept-Step pos small (lost r s more) ((side, st), room) =
      let k = request filename r in
      let inside = before-total size k (length content) pos (ground arith) small in
      (((Side-serve filename content size k s inside side).0, st), room)
  Kept-Step pos small (cut r s bytes reply more sent wrong) ((side, st), room) =
      let k = request filename r in
      let inside = before-total size k (length content) pos (ground arith) small in
      let ignored : recv_next_chunk (record reply { bytes = bytes }) r ≡ r =
        unfold recv_next_chunk in ground arith in
      rw ignored (((Side-serve filename content size k s inside side).0, st), room)
  Kept-Step pos small (expires r s) ((side, st), room) =
      ((Side-expired (request filename r) s side, st), room)

  pub Reach-Kept :
      (r0 r : Receiver) (s : Sender)
      → 0 < size
      → length content / size < 2147483648
      → at_or filename [] r0.files ≡ old
      → Reach filename
          (total_chunks (length content) size)
          (start_receiver filename r0)
          (start_sender filename content size)
          r
          s
      → InStep r s × (request filename r ≤ total_chunks (length content) size)
  unfolding Kept
  Reach-Kept r0 r s pos small o begin = (
    InStep-start r0 o,
    ground
        (arith, lookup-set filename filename 0 r0.client_chunk_count, str_eq_iff filename filename),
  )
  Reach-Kept r0 r s pos small o (next {r = r1} {s = s1} run step) =
      Kept-Step pos small step (Reach-Kept r0 r1 s1 pos small o run)

-- In a transfer with a positive chunk size and less than 2 ^ 31 whole chunks, in which replies
-- arrive, are lost or arrive with another number of bytes than they announce, and waits end, in
-- any order, the file of the receiver is always what it was and then the first chunks of the sent
-- file, as many as are counted, so it is the old bytes and all of the sent file when the count is
-- full; and the sender never throws.
pub transfer_safe :
    (filename : String) (content : List ℕ) (size : ℕ) (r0 r : Receiver) (s : Sender)
    → 0 < size
    → length content / size < 2147483648
    → Reach filename
        (total_chunks (length content) size)
        (start_receiver filename r0)
        (start_sender filename content size)
        r
        s
    → (at_or filename [] r.files
        ≡ at_or filename [] r0.files ++ first_chunks size (request filename r) content)
      × (s.phase ≢ thrown)
      × (ltb (request filename r) (total_chunks (length content) size) ≡ false
          → at_or filename [] r.files ≡ at_or filename [] r0.files ++ content)
transfer_safe filename content size r0 r s pos small run =
    let ((side, st), room) =
      Reach-Kept filename content (at_or filename [] r0.files) size r0 r s pos small refl run in
    (
      st,
      side.no_throw,
      λ full.
          let count : request filename r ≡ total_chunks (length content) size = ground arith in
          st
          ∙ ap (λ t. at_or filename [] r0.files ++ t)
              (ap (λ k. first_chunks size k content) count ∙ first-total size content pos small),
    )

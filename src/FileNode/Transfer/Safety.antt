-- ===== src/FileNode/Transfer/Safety.antt =====
-- A transfer in which replies are lost or damaged, and waits end, in any order.
use cranesps.Base.{
  string_key, ℕ, suc, ◌*◌, ◌<◌, String, ◌≡◌, ◌≢◌, refl, sym, ap, subst, ◌∙◌, ◌⊎◌, inl, inr, false,
  Option, none, some, List, [], ◌++◌, arith, length, take, ltb, if◌then◌else◌, Bool-cases,
}
use mathlib.Core.List.{append_assoc}
use cranesps.Base.Text.{str_eq_iff}
use cranesps.Base.StdMap.{at_or, set, lookup-set}
use cranesps.FileNode.Chunks.{get_next_chunk, get_next_chunk_exact}
use cranesps.FileNode.Transfer.{
  Receiver, Sender, FetchReply, Phase, serving, last_piece, done, thrown, recv_next_chunk, serve,
  serve_chunk, reply_of, request,
}
use cranesps.FileNode.Transfer.Pieces.{after_chunks, first_chunks, length-after}

-- The reply that carries the chunk `k`.
abbrev pub piece : String → List ℕ → ℕ → ℕ → FetchReply
piece filename content size k = record {
  filename = filename;
  chunk_id = k;
  bytes = take size (after_chunks size k content);
  chunk_size = length (take size (after_chunks size k content));
}

-- What holds of the sender while the client asks for chunk `k`: it has served the chunks before it,
-- or that one too and still has it in its buffer.
pub record Side (filename : String) (content : List ℕ) (size k : ℕ) (s : Sender) : Type 0 where
  pub same_name : s.filename ≡ filename
  pub same_size : s.file.ch_size ≡ size
  pub near :
      (s.served ≡ k)
      ⊎ ((s.served ≡ suc k) × (s.file.buffer ≡ take size (after_chunks size k content)))
  pub unread : s.file.rest ≡ after_chunks size s.served content
  pub running : s.phase ≡ serving → s.file.eof ≡ false
  pub ended : s.phase ≡ last_piece → length content < s.served * size
  pub no_throw : s.phase ≢ thrown

pub Phase-cases : (p : Phase) → ((p ≡ serving) ⊎ (p ≡ last_piece)) ⊎ ((p ≡ done) ⊎ (p ≡ thrown))
Phase-cases serving = inl (inl refl)
Phase-cases last_piece = inl (inr refl)
Phase-cases done = inr (inl refl)
Phase-cases thrown = inr (inr refl)

module _ (filename : String) (content : List ℕ) (size : ℕ) where
  Answered : ℕ → Sender × Option FetchReply → Type 0
  Answered k (s, reply) =
      (reply ≡ some (piece filename content size k))
      × (s.served ≡ suc k)
      × Side filename content size k s

  -- The first time that a chunk is asked for.
  serve-new :
      (k : ℕ) (s : Sender)
      → Side filename content size k s
      → s.phase ≡ serving
      → s.served ≡ k
      → Answered k (serve_chunk k s)
  unfolding serve_chunk Answered
  serve-new k s side now first =
      let (chunk, rest, eof) = get_next_chunk_exact s.file (side.running now) in
      let bytes : (get_next_chunk s.file).buffer ≡ take size (after_chunks size k content) =
        chunk ∙ rw side.same_size (rw side.unread (rw first refl)) in
      let left : (get_next_chunk s.file).rest ≡ after_chunks size (suc k) content =
        rest ∙ rw side.same_size (rw side.unread (rw first refl)) in
      let form : serve_chunk k s ≡ (
        record s {
          file = get_next_chunk s.file;
          served = suc s.served;
          phase = if (get_next_chunk s.file).eof then last_piece else serving;
        },
        some (reply_of s k (get_next_chunk s.file).buffer),
      ) =
        ground arith in
      let flag : (get_next_chunk s.file).eof ≡ ltb (length (after_chunks size k content)) size =
        eof ∙ rw side.same_size (rw side.unread (rw first refl)) in
      subst (Answered k) (sym form) (
        rw side.same_name (rw bytes refl),
        ap suc first,
        record {
          same_name = side.same_name;
          same_size = unfold get_next_chunk in side.same_size;
          near = inr (ap suc first, bytes);
          unread = left ∙ ap (λ j. after_chunks size (suc j) content) (sym first);
          running = λ e. elim (Bool-cases (get_next_chunk s.file).eof) [
            | inl up ↦ ground arith
            | inr down ↦ down
          ];
          ended = λ e. elim (Bool-cases (get_next_chunk s.file).eof) [
            | inl up ↦ ground (arith, length-after size k content)
            | inr down ↦ ground arith
          ];
          no_throw = λ e. ground arith;
        },
      )

  -- The same chunk again.
  serve-again :
      (k : ℕ) (s : Sender)
      → Side filename content size k s
      → s.served ≡ suc k
      → s.file.buffer ≡ take size (after_chunks size k content)
      → Answered k (serve_chunk k s)
  unfolding serve_chunk Answered
  serve-again k s side ahead buffered =
      let form : serve_chunk k s ≡ (s, some (reply_of s k s.file.buffer)) = ground arith in
      subst (Answered k) (sym form) (rw side.same_name (rw buffered refl), ahead, side)

  Side-done :
      (k : ℕ) (s : Sender)
      → Side filename content size k s
      → Side filename content size k (record s { phase = done })
  Side-done k s side = record {
    same_name = side.same_name;
    same_size = side.same_size;
    near = side.near;
    unread = side.unread;
    running = λ e. ground arith;
    ended = λ e. ground arith;
    no_throw = λ e. ground arith;
  }

  -- The sender is ready for the next chunk once the receiver has counted this one.
  pub Side-ahead :
      (k : ℕ) (s : Sender)
      → s.served ≡ suc k
      → Side filename content size k s
      → Side filename content size (suc k) s
  Side-ahead k s ahead side = record {
    same_name = side.same_name;
    same_size = side.same_size;
    near = inl ahead;
    unread = side.unread;
    running = side.running;
    ended = side.ended;
    no_throw = side.no_throw;
  }

  -- A request for the chunk `k` of the file: the sender never throws, and it replies with that
  -- chunk or not at all.
  pub Side-serve :
      (k : ℕ) (s : Sender)
      → k * size < length content
      → Side filename content size k s
      → Side filename content size k (serve k s).0
        × (((serve k s).1 ≡ none)
            ⊎ (((serve k s).1 ≡ some (piece filename content size k))
                × ((serve k s).0.served ≡ suc k)))
  unfolding Answered
  Side-serve k s more side = elim (Phase-cases s.phase) [
    | inl (inl now) ↦
        let form : serve k s ≡ serve_chunk k s = unfold serve in rw now refl in
        let answered : Answered k (serve_chunk k s) = elim side.near [
          | inl first ↦ serve-new k s side now first
          | inr (ahead, buffered) ↦ serve-again k s side ahead buffered
        ] in
        rw form (answered.2, inr (answered.0, answered.1))
    | inl (inr last) ↦ elim side.near [
      | inl first ↦
          let past : length content < k * size =
            subst (λ j. length content < j * size) first (side.ended last) in
          ground arith
      | inr (ahead, buffered) ↦
          let form : serve k s ≡ (record s { phase = done }, none) =
            unfold serve in rw last (ground arith) in
          rw form (Side-done k s side, inl refl)
    ]
    | inr (inl over) ↦
        let form : serve k s ≡ (s, none) = unfold serve in rw over refl in rw form (side, inl refl)
    | inr (inr gone) ↦ elim (side.no_throw gone) [ ]
  ]

  -- The receiver has the bytes that it had, and then the first chunks of the file, as many as it
  -- counts.
  abbrev pub Stored : List ℕ → Receiver → Type 0
  Stored old r = at_or filename [] r.files ≡ old ++ first_chunks size (request filename r) content

  -- The next chunk counts once, and its bytes are added to the file.
  pub recv-piece :
      (old : List ℕ) (r : Receiver)
      → Stored old r
      → (request filename (recv_next_chunk (piece filename content size (request filename r)) r)
          ≡ suc (request filename r))
        × Stored old (recv_next_chunk (piece filename content size (request filename r)) r)
  recv-piece old r st =
      let k = request filename r in
      let bytes = take size (after_chunks size k content) in
      let form : recv_next_chunk (piece filename content size k) r ≡ (record {
        files = set filename (at_or filename [] r.files ++ bytes) r.files;
        client_chunk_count = set filename (suc k) r.client_chunk_count;
      }) =
        unfold recv_next_chunk in ground arith in
      let count : at_or filename 0 (set filename (suc k) r.client_chunk_count) ≡ suc k =
        rw (lookup-set filename filename (suc k) r.client_chunk_count)
          (ground (arith, str_eq_iff filename filename)) in
      let file : at_or filename [] (set filename (at_or filename [] r.files ++ bytes) r.files)
          ≡ at_or filename [] r.files ++ bytes =
        rw (lookup-set filename filename (at_or filename [] r.files ++ bytes) r.files)
          (ground (arith, str_eq_iff filename filename)) in
      rw form (
        count,
        file
            ∙ ap (λ t. t ++ bytes) st
            ∙ append_assoc old (first_chunks size k content) bytes
            ∙ ap (λ j. old ++ first_chunks size j content) (sym count),
      )

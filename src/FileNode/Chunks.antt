-- ===== src/FileNode/Chunks.antt =====
-- `FileHelper` of utils/FileHelper.h: a file that is read chunk by chunk. A byte is a number below
-- 256; `get` at the end of the file gives -1, which is appended as the byte 255.
use cranesps.Base.{
  append_nil, ℕ, zero, suc, ◌/◌, ◌%◌, ◌≡◌, refl, sym, ap, ◌∙◌, Bool, true, false, List, [], ◌∷◌,
  ◌++◌, arith, length, take, drop, ltb, ◌==◌, if◌then◌else◌,
}
use mathlib.Core.List.{append_assoc}

pub record FileHelper : Type 0 where
  pub rest : List ℕ  -- the bytes of the stream that are still to be read
  pub eof : Bool
  pub buffer : List ℕ
  pub ch_size : ℕ

abbrev pub open_file : List ℕ → ℕ → FileHelper
open_file content chunk_size = record {
  rest = content;
  eof = false;
  buffer = [];
  ch_size = chunk_size;
}

abbrev pub pop_back : List ℕ → List ℕ
pop_back [] = []
pop_back (x ∷ []) = []
pop_back (x ∷ y ∷ xs) = x ∷ pop_back (y ∷ xs)

-- The loop of `getNextChunk`, with the number of rounds that `count` leaves: the buffer, the bytes
-- that are left, and the end-of-file flag.
unfoldable pub read_loop : ℕ → List ℕ → List ℕ → List ℕ × List ℕ × Bool
read_loop zero rest buffer = (buffer, rest, false)
read_loop (suc left) [] buffer = (buffer ++ 255 ∷ [], [], true)
read_loop (suc left) (byte ∷ rest) buffer = read_loop left rest (buffer ++ byte ∷ [])

-- The chunk is the buffer of the result. At the end of the file the source's `pop_back` acts on
-- an empty buffer, which no caller does.
unfoldable pub get_next_chunk : FileHelper → FileHelper
get_next_chunk fh =
    let (read, rest, eof) =
      if fh.eof then ([], fh.rest, true) else read_loop fh.ch_size fh.rest [] in
    record fh { rest = rest; eof = eof; buffer = if eof then pop_back read else read }

-- `fetchClientThread`: how many chunks the file has. The quotient is narrowed to an `int`; a
-- negative one asks for no chunk, as 0 does.
unfoldable pub total_chunks : ℕ → ℕ → ℕ
total_chunks size chunk_size =
    let q = size / chunk_size % 4294967296 in
    if ltb q 2147483648 then (if size % chunk_size == 0 then q else suc q) else 0

pop_back-append : (xs : List ℕ) (x : ℕ) → pop_back (xs ++ x ∷ []) ≡ xs
pop_back-append [] x = refl
pop_back-append (y ∷ []) x = refl
pop_back-append (y ∷ z ∷ xs) x = ap (λ t. y ∷ t) (pop_back-append (z ∷ xs) x)

read_loop-exact :
    (n : ℕ) (rest buffer : List ℕ)
    → (let (read, left, eof) = read_loop n rest buffer in
        ((if eof then pop_back read else read) ≡ buffer ++ take n rest)
        × (left ≡ drop n rest)
        × (eof ≡ ltb (length rest) n))
unfolding read_loop
read_loop-exact zero rest buffer = (sym (append_nil buffer), refl, ground arith)
read_loop-exact (suc n) [] buffer =
    (pop_back-append buffer 255 ∙ sym (append_nil buffer), refl, ground arith)
read_loop-exact (suc n) (b ∷ rest) buffer =
    let (chunk, left, eof) = read_loop-exact n rest (buffer ++ b ∷ []) in
    (chunk ∙ append_assoc buffer (b ∷ []) (take n rest), left, eof ∙ ground arith)

-- Before the end of the file, a call of `getNextChunk` gives the next bytes, as many as a chunk has
-- or as there are, without the byte that stands for the end, and moves past them. The end-of-file
-- flag rises exactly when there were fewer bytes than a chunk has.
pub get_next_chunk_exact :
    (fh : FileHelper)
    → fh.eof ≡ false
    → ((get_next_chunk fh).buffer ≡ take fh.ch_size fh.rest)
      × ((get_next_chunk fh).rest ≡ drop fh.ch_size fh.rest)
      × ((get_next_chunk fh).eof ≡ ltb (length fh.rest) fh.ch_size)
unfolding get_next_chunk
get_next_chunk_exact fh running =
    let (chunk, left, eof) = read_loop-exact fh.ch_size fh.rest [] in rw running (chunk, left, eof)

-- ===== src/FileNode/Transfer.antt =====
-- One transfer of a file: `fetchClientThread`, `recvNextChunk`, `fetchServerThread` and
-- `sendNextChunk`, and the requests and replies that they exchange.
pub mod Pieces
pub mod Safety
pub mod Losses
pub mod Complete
use cranesps.Base.{
  string_key, ℕ, ◌≡◌, zero, suc, String, Bool, true, false, Option, none, some, List, [], ◌∷◌, ◌++◌,
  length, ltb, ◌==◌, not, ◌||◌, if◌then◌else◌,
}
use cranesps.Base.StdMap.{set, at_or}
use cranesps.FileNode.Chunks.{FileHelper, open_file, get_next_chunk}

-- What the two sides of a transfer have on the node: the directory of the files, and the number
-- of chunks received, by the name of the file.
pub record Receiver : Type 0 where
  pub files : List (String × List ℕ)
  pub client_chunk_count : List (String × ℕ)

pub record FetchReply : Type 0 where
  pub filename : String
  pub chunk_id : ℕ
  pub bytes : List ℕ
  pub chunk_size : ℕ

-- `served` is the source's `chunkCount + 1`; it is in the loop until the file has ended, then it
-- waits for one more request, and is done. `thrown` is the `throw` of a `const char *`.
pub data Phase : Type 0 where
  serving last_piece done thrown : Phase

pub record Sender : Type 0 where
  pub file : FileHelper
  pub filename : String
  pub served : ℕ
  pub phase : Phase

abbrev pub start_sender : String → List ℕ → ℕ → Sender
start_sender filename content chunk_size = record {
  file = open_file content chunk_size;
  filename = filename;
  served = 0;
  phase = serving;
}

abbrev pub start_receiver : String → Receiver → Receiver
start_receiver filename r = record r { client_chunk_count = set filename 0 r.client_chunk_count }

-- `recvNextChunk`.
unfoldable pub recv_next_chunk : FetchReply → Receiver → Receiver
recv_next_chunk reply r =
    let count = at_or reply.filename 0 r.client_chunk_count in
    if not (reply.chunk_id == count)
    then r
    else if not (length reply.bytes == reply.chunk_size)
    then r
    else record {
      files = set reply.filename (at_or reply.filename [] r.files ++ reply.bytes) r.files;
      client_chunk_count = set reply.filename (suc count) r.client_chunk_count;
    }

abbrev pub reply_of : Sender → ℕ → List ℕ → FetchReply
reply_of s id bytes = record {
  filename = s.filename;
  chunk_id = id;
  bytes = bytes;
  chunk_size = length bytes;
}

-- One round of the loop of `fetchServerThread`, for a request of chunk `id`.
unfoldable pub serve_chunk : ℕ → Sender → Sender × Option FetchReply
serve_chunk id s =
    let next = get_next_chunk s.file in
    if suc id == s.served
    then (s, some (reply_of s id s.file.buffer))
    else if id == s.served
    then (
      record s {
        file = next;
        served = suc s.served;
        phase = if next.eof then last_piece else serving;
      },
      some (reply_of s id next.buffer),
    )
    else (record s { phase = thrown }, none)

-- A request in any phase. The reply after the end of the file has no file name, number and size,
-- which the protocol requires, so it is no reply.
unfoldable pub serve : ℕ → Sender → Sender × Option FetchReply
serve id s = elim s.phase [
  | serving ↦ serve_chunk id s
  | last_piece ↦ (record s { phase = if suc id == s.served then done else thrown }, none)
  | done ↦ (s, none)
  | thrown ↦ (s, none)
]

-- No request for the time that the server waits: the thread ends.
abbrev pub expired : Phase → Phase
expired serving = done
expired last_piece = done
expired done = done
expired thrown = thrown

abbrev pub time_out : Sender → Sender
time_out s = record s { phase = expired s.phase }

abbrev pub request : String → Receiver → ℕ
request filename r = at_or filename 0 r.client_chunk_count

abbrev pub accept : Option FetchReply → Receiver → Receiver
accept none r = r
accept (some reply) r = recv_next_chunk reply r

-- The rounds of the client's loop, where every message arrives: the receiver, the sender, and
-- whether the loop has ended.
unfoldable pub fetch_loop : ℕ → String → ℕ → Receiver → Sender → Receiver × Sender × Bool
fetch_loop zero filename total r s = (r, s, not (ltb (request filename r) total))
fetch_loop (suc fuel) filename total r s =
    let (s2, reply) = serve (request filename r) s in
    let more = fetch_loop fuel filename total (accept reply r) s2 in
    if ltb (request filename r) total then more else (r, s, true)

-- What can happen in a round: the reply arrives, or it is lost or damaged on the way, so that its
-- size is wrong, or the server's wait ends.
pub data Step (filename : String) (total : ℕ) : Receiver → Sender → Receiver → Sender → Type 0 where
  arrives :
      (r : Receiver) (s : Sender)
      → ltb (request filename r) total ≡ true
      → Step filename total r s
          (accept (serve (request filename r) s).1 r)
          (serve (request filename r) s).0
  lost :
      (r : Receiver) (s : Sender)
      → ltb (request filename r) total ≡ true
      → Step filename total r s r (serve (request filename r) s).0
  cut :
      (r : Receiver) (s : Sender) (bytes : List ℕ) (reply : FetchReply)
      → ltb (request filename r) total ≡ true
      → (serve (request filename r) s).1 ≡ some reply
      → (length bytes == reply.chunk_size) ≡ false
      → Step filename total r s
          (recv_next_chunk (record reply { bytes = bytes }) r)
          (serve (request filename r) s).0
  expires : (r : Receiver) (s : Sender) → Step filename total r s r (time_out s)

pub data Reach (filename : String) (total : ℕ) (r0 : Receiver) (s0 : Sender)
    : Receiver → Sender → Type 0 where
  begin : Reach filename total r0 s0 r0 s0
  next :
      {r r2 : Receiver} {s s2 : Sender}
      → Reach filename total r0 s0 r s
      → Step filename total r s r2 s2
      → Reach filename total r0 s0 r2 s2

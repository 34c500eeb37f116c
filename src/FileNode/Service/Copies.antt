-- ===== src/FileNode/Service/Copies.antt =====
-- A replica on its way: the port, the transfer, and what the target and the master know at the end.
use cranesps.Base.{
  string_key, ℕ, zero, suc, ◌+◌, ◌-◌, ◌/◌, ◌≤◌, ◌<◌, String, ◌≡◌, refl, ap, Bool, true, false,
  Option, none, some, List, [], ◌∷◌, ◌++◌, length, arith, if◌then◌else◌, Option-cases, Bool-cases,
  differs, inl, inr, ◌==◌, leb,
}
use cranesps.Base.Text.{str_eq}
use cranesps.Base.StdMap.{lookup, at_or}
use cranesps.FileMaster.Files.{new_file_info, has_name}
use cranesps.FileMaster.Requests.{update}
use cranesps.FileNode.Chunks.{total_chunks}
use cranesps.FileNode.Transfer.{Receiver, Sender, start_receiver, start_sender, fetch_loop}
use cranesps.FileNode.Transfer.Complete.{transfer_completes}
use cranesps.FileNode.Store.{
  FileNode, next_port, dynamic_port_base, dynamic_port_max, add_to_local_file_map, finish_fetch,
  process_send_request,
}
use cranesps.FileNode.Service.{
  SendRequest, chunk_size, find_data_port, send_file_request, send_update_request, end_fetch,
}

-- How many ports are tried before port `p`.
abbrev distance : ℕ → FileNode → ℕ
distance p node =
    if leb node.dynamic_port p
    then p - node.dynamic_port
    else (dynamic_port_max - node.dynamic_port) + suc (p - dynamic_port_base)

abbrev pub HasPort : FileNode → Type 0
HasPort node = (dynamic_port_base ≤ node.dynamic_port) × (node.dynamic_port ≤ dynamic_port_max)

distance-next :
    (p : ℕ) (node : FileNode)
    → dynamic_port_base ≤ p
    → p ≤ dynamic_port_max
    → HasPort node
    → ((next_port node).0 == p) ≡ false
    → (suc (distance p (next_port node).1) ≤ distance p node) × HasPort (next_port node).1
unfolding next_port
distance-next p node low high r other = ground arith

find_data_port-within :
    (fuel : ℕ) (free : ℕ → Bool) (p : ℕ) (node : FileNode)
    → free p ≡ true
    → dynamic_port_base ≤ p
    → p ≤ dynamic_port_max
    → HasPort node
    → distance p node < fuel
    → (port : ℕ) × (next : FileNode) × (find_data_port fuel free node ≡ some (port, next))
      × (free port ≡ true)
unfolding find_data_port
find_data_port-within zero free p node ok low high r d = absurd (omega arith)
find_data_port-within (suc fuel) free p node ok low high r d =
    let (port, next) = next_port node in
    elim (Bool-cases (free port)) [
      | inl found ↦ (port, next, rw (find_data_port, found), found)
      | inr taken ↦
          let (nearer, r') = distance-next p node low high r (differs free p port ok taken) in
          let (q, after, run, is_free) =
            find_data_port-within fuel free p next ok low high r' (omega arith) in
          (q, after, rw (find_data_port, taken) run, is_free)
    ]

distance-lt :
    (p : ℕ) (node : FileNode)
    → dynamic_port_base ≤ p
    → p ≤ dynamic_port_max
    → HasPort node
    → distance p node < 200
distance-lt p node low high r = ground arith

stored :
    (name : String) (content : List ℕ) (files : List (String × List ℕ))
    → at_or name [] files ≡ content
    → 0 < length content
    → lookup name files ≡ some content
stored name content files h pos = elim (Option-cases (lookup name files)) [
  | inl missing ↦ absurd (ground (arith, missing, ap length h))
  | inr (bytes, there) ↦ ground (arith, there, h)
]

module _ (md5 : Option (List ℕ) → String) where
  -- The request for a file, with what it announces.
  abbrev request_for : String → String → List ℕ → ℕ → SendRequest
  request_for id name content port = record {
    sender_ip = id;
    filename = name;
    file_size = length content;
    file_md5 = md5 (some content);
    chunk_size = chunk_size;
    port = port;
    filepath = none;
  }

  -- The target lists what it fetched, with the record that it sends to the master.
  end_fetch_lem :
      (leader id name : String) (content : List ℕ) (port : ℕ) (t : FileNode)
      → str_eq leader "" ≡ false
      → has_name name t.infos ≡ false
      → lookup name t.files ≡ some content
      → let fi = new_file_info name (md5 (some content)) (length content) in
        let (after, sent) = end_fetch md5 leader (request_for id name content port) t in
        (after.infos ≡ t.infos ++ fi ∷ [])
        × (lookup name after.files ≡ some content)
        × (sent ≡ some (update fi.name fi.md5 fi.size))
  unfolding end_fetch send_update_request finish_fetch add_to_local_file_map
  end_fetch_lem leader id name content port t known fresh there =
      ground (arith, known, fresh, there)

  -- A node sends a file that it has, and that is not empty, to a node that has no file and no bytes of that name,
  -- while one of the data ports is free and a leader is known: a port that is free is announced,
  -- the target accepts, and where every message arrives it ends with the content, lists the same
  -- record as the source has of it, and sends that record to the master.
  pub replica_arrives :
      (leader name : String) (content : List ℕ) (s t : FileNode) (counts : List (String × ℕ))
      → (free : ℕ → Bool) (p : ℕ) → str_eq leader "" ≡ false
      → lookup name s.files ≡ some content
      → 0 < length content
      → length content / chunk_size < 2147483648
      → has_name name t.infos ≡ false
      → at_or name [] t.files ≡ []
      → free p ≡ true
      → dynamic_port_base ≤ p
      → p ≤ dynamic_port_max
      → HasPort s
      → let receiver : Receiver = record { files = t.files; client_chunk_count = counts } in
        let fi = new_file_info name (md5 (some content)) (length content) in
        (next : FileNode) × (request : SendRequest) × (r : Receiver) × (sender : Sender)
        × (send_file_request md5 200 free name "" s ≡ some (next, request))
        × (free request.port ≡ true)
        × (process_send_request request.filename t ≡ true)
        × (fetch_loop
              (total_chunks request.file_size request.chunk_size)
              name
              (total_chunks request.file_size request.chunk_size)
              (start_receiver name receiver)
              (start_sender name content request.chunk_size)
            ≡ (r, sender, true))
        × (let (after, sent) = end_fetch md5 leader request (record t { files = r.files }) in
            (after.infos ≡ t.infos ++ fi ∷ [])
            × (lookup name after.files ≡ some content)
            × (sent ≡ some (update fi.name fi.md5 fi.size)))
  unfolding send_file_request
  replica_arrives leader name content s t counts free p known there pos small fresh clean ok low
        high r =
      let (port, next, run, is_free) =
        find_data_port-within 200 free p s ok low high r (distance-lt p s low high r) in
      let receiver : Receiver = record { files = t.files; client_chunk_count = counts } in
      let (got, sender, loop, whole) =
        transfer_completes name content chunk_size receiver (omega arith) small clean in
      let here = stored name content got.files whole pos in
      (
        next,
        request_for s.id name content port,
        got,
        sender,
        rw (send_file_request, run, there) refl,
        is_free,
        ground (arith, fresh),
        loop,
        end_fetch_lem leader s.id name content port (record t { files = got.files }) known fresh
            here,
      )

-- ===== src/FileNode/Store/Table.antt =====
-- The table of the local files: each name stands once; and the round of the data ports.
use cranesps.Base.{
  string_key, ℕ, zero, suc, ◌+◌, ◌-◌, ◌%◌, ◌≤◌, String, ◌≡◌, refl, ap, ◌∙◌, true, false, not, ◌&&◌,
  ◌||◌, Option, List, [], ◌∷◌, ◌++◌, arith, inl, inr, Bool-cases, ◌==◌,
}
use cranesps.Base.Text.{str_eq, str_eq_iff}
use cranesps.Base.StdMap.{lookup}
use cranesps.FileMaster.Files.{FileInfo, new_file_info, has_name}
use cranesps.FileMaster.Files.Laws.{has_name-append}
use cranesps.FileNode.Store.{
  FileNode, dynamic_port_base, dynamic_port_max, next_port, add_to_local_file_map,
  copy_buffered_file, finish_fetch, erase_info, delete_local_file, size_of,
}

-- No two entries have one name.
abbrev pub IsDistinct : List FileInfo → Type 0
IsDistinct [] = Unit
IsDistinct (fi ∷ infos) = (has_name fi.name infos ≡ false) × IsDistinct infos

has_name-erase_info :
    (f g : String) (infos : List FileInfo)
    → IsDistinct infos
    → has_name g (erase_info f infos) ≡ (has_name g infos && not (str_eq f g))
unfolding erase_info
has_name-erase_info f g [] d = refl
has_name-erase_info f g (fi ∷ infos) d = elim (Bool-cases (str_eq fi.name f)) [
  | inl e ↦
      let same : has_name fi.name infos ≡ has_name f infos =
        ap (λ x. has_name x infos) ((str_eq_iff fi.name f).0 e) in
      elim (Bool-cases (str_eq f g)) [
        | inl fg ↦
            let here : has_name f infos ≡ has_name g infos =
              ap (λ x. has_name x infos) ((str_eq_iff f g).0 fg) in
            ground (arith, e, fg, same, here, d.0)
        | inr fg ↦ ground (arith, e, fg, str_eq_iff fi.name f, str_eq_iff fi.name g, str_eq_iff f g)
      ]
  | inr e ↦ ground (
    arith,
    e,
    str_eq_iff fi.name g,
    str_eq_iff f g,
    str_eq_iff fi.name f,
    has_name-erase_info f g infos d.1,
  )
]

erase_info-IsDistinct :
    (f : String) (infos : List FileInfo) → IsDistinct infos → IsDistinct (erase_info f infos)
unfolding erase_info
erase_info-IsDistinct f [] d = tt
erase_info-IsDistinct f (fi ∷ infos) d =
    ground (arith, erase_info-IsDistinct f infos d.1, has_name-erase_info f fi.name infos d.1)

append-IsDistinct :
    (fi : FileInfo) (infos : List FileInfo)
    → has_name fi.name infos ≡ false
    → IsDistinct infos
    → IsDistinct (infos ++ fi ∷ [])
append-IsDistinct fi [] new d = (refl, tt)
append-IsDistinct fi (x ∷ infos) new d = ground (
  arith,
  has_name-append x.name infos fi,
  append-IsDistinct fi infos,
  str_eq_iff fi.name x.name,
  str_eq_iff x.name fi.name,
)

missing_name :
    (f g : String) (infos : List FileInfo)
    → has_name f infos ≡ false
    → has_name g infos ≡ (has_name g infos && not (str_eq f g))
missing_name f g infos missing = elim (Bool-cases (str_eq f g)) [
  | inl same ↦
      let here : has_name f infos ≡ has_name g infos =
        ap (λ x. has_name x infos) ((str_eq_iff f g).0 same) in
      ground (arith, same, here, missing)
  | inr other ↦ ground (arith, other)
]

held_name :
    (f g : String) (infos : List FileInfo)
    → has_name f infos ≡ true
    → has_name g infos ≡ (has_name g infos || str_eq f g)
held_name f g infos held = elim (Bool-cases (str_eq f g)) [
  | inl same ↦
      let here : has_name f infos ≡ has_name g infos =
        ap (λ x. has_name x infos) ((str_eq_iff f g).0 same) in
      ground (arith, same, here, held)
  | inr other ↦ ground (arith, other)
]

added_name :
    (md5 : Option (List ℕ) → String) (f g : String) (node : FileNode)
    → IsDistinct node.infos
    → IsDistinct (add_to_local_file_map md5 f node).infos
      × (has_name g (add_to_local_file_map md5 f node).infos
          ≡ (has_name g node.infos || str_eq f g))
unfolding add_to_local_file_map
added_name md5 f g node d =
    let fi = new_file_info f (md5 (lookup f node.files)) (size_of (lookup f node.files)) in
    elim (Bool-cases (has_name f node.infos)) [
      | inl held ↦ rw held (d, held_name f g node.infos held)
      | inr new ↦ rw new (append-IsDistinct fi node.infos new d, has_name-append g node.infos fi)
    ]

-- Every operation on the table of the local files keeps each name in it once, and changes whether a
-- name is in it only for its own name: a file that is added, copied from a buffered path or fetched
-- to stay is in it afterwards, a file that is fetched for a path elsewhere changes nothing, and a file
-- that is deleted is not in it.
pub local_table_exact :
    (md5 : Option (List ℕ) → String) (f g path : String) (node : FileNode)
    → IsDistinct node.infos
    → (IsDistinct (add_to_local_file_map md5 f node).infos
        × (has_name g (add_to_local_file_map md5 f node).infos
            ≡ (has_name g node.infos || str_eq f g)))
      × (IsDistinct (copy_buffered_file md5 f node).infos
          × (has_name g (copy_buffered_file md5 f node).infos
              ≡ (has_name g node.infos || str_eq f g)))
      × (IsDistinct (finish_fetch md5 f path node).infos
          × (has_name g (finish_fetch md5 f path node).infos
              ≡ (has_name g node.infos || (str_eq path "" && str_eq f g))))
      × (IsDistinct (delete_local_file f node).infos
          × (has_name g (delete_local_file f node).infos
              ≡ (has_name g node.infos && not (str_eq f g))))
local_table_exact md5 f g path node d = (
  added_name md5 f g node d,
  unfold copy_buffered_file in added_name md5 f g _ d,
  unfold finish_fetch in
      elim (Bool-cases (str_eq path "")) [
        | inl stays ↦ rw stays (added_name md5 f g node d)
        | inr goes ↦ rw goes (d, ground arith)
      ],
  unfold delete_local_file in
      elim (Bool-cases (has_name f node.infos)) [
        | inl held ↦
            rw held (erase_info-IsDistinct f node.infos d, has_name-erase_info f g node.infos d)
        | inr missing ↦ rw missing (d, missing_name f g node.infos missing)
      ],
)

-- `next_port`, k times, and what the last call gave.
abbrev pub port_after : ℕ → FileNode → ℕ
port_after zero node = (next_port node).0
port_after (suc k) node = port_after k (next_port node).1

-- From a port of the range, call k + 1 of nextPort gives the port k places further in the range of
-- the 200 data ports, which goes round: every port of the range comes within 200 calls, and no other.
pub port_after_exact :
    (k : ℕ) (node : FileNode)
    → dynamic_port_base ≤ node.dynamic_port
    → node.dynamic_port ≤ dynamic_port_max
    → port_after k node ≡ dynamic_port_base + (node.dynamic_port - dynamic_port_base + k) % 200
unfolding next_port
port_after_exact zero node low high = ground arith
port_after_exact (suc k) node low high = elim (Bool-cases (node.dynamic_port == dynamic_port_max)) [
  | inl last ↦ rw last (
      port_after_exact k (record node { dynamic_port = dynamic_port_base }) (omega arith)
        (omega arith)
      ∙ ground arith)
  | inr before ↦ rw before (
      port_after_exact k (record node { dynamic_port = suc node.dynamic_port }) (omega arith)
        (ground arith)
      ∙ ground arith)
]

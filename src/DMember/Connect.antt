-- ===== src/DMember/Connect.antt =====
-- `Impl::updateConnection`: the heartbeats that a node listens to. A group of more than three is a
-- ring by the order of the names, and each node listens to its three predecessors.
use cranesps.Base.{
  ℕ, suc, ◌+◌, ◌-◌, ◌%◌, String, List, [], ◌∷◌, map, if◌then◌else◌, length, get_elem?, filter, not,
  leb, ◌==◌,
}
use cranesps.Base.StdMap.{get_or}
use cranesps.Base.Text.{str_eq}
use cranesps.DMember.Types.{DMember, make_addr, heartbeat_port, introducer_address}

abbrev pub max_fail : ℕ
max_fail = 2

-- The loop that looks for the own name: the size where it is not found.
unfoldable pub own_index : String → List String → ℕ
own_index id [] = 0
own_index id (member ∷ members) =
    let rest = own_index id members in if str_eq member id then 0 else suc rest

abbrev pub target_index : ℕ → ℕ → ℕ → ℕ
target_index index size i = (index + size - i) % size

-- `members[target_index]`; `Ring` shows that the index is in range.
target : List String → ℕ → ℕ → String
target members index i = get_or (get_elem? members (target_index index (length members) i)) ""

unfoldable pub predecessors : String → List String → List String
unfolding own_index target
predecessors id members =
    let index = own_index id members in
    target members index 1 ∷ target members index 2 ∷ target members index 3 ∷ []

-- Whom a node connects to beside the introducer.
unfoldable pub neighbours : String → List String → List String
neighbours id members =
    if leb (length members) (max_fail + 1)
    then filter (λ m. not (str_eq m id)) members
    else predecessors id members

unfoldable pub update_connection : List String → DMember → DMember
update_connection members d = if length members == 1 then d else record d {
  connections =
      map (λ m. make_addr m heartbeat_port) (introducer_address ∷ neighbours d.id members);
}

-- ===== src/DMember/Tables/Counts.antt =====
-- The heartbeat counts: a merge takes the newest.
use cranesps.Base.{
  ℕ, suc, ◌≤◌, String, ◌≡◌, refl, inl, inr, Option, some, List, [], ◌∷◌, arith, ltb, if◌then◌else◌,
  Bool-cases,
}
use cranesps.Base.Text.{str_eq}
use cranesps.Member.{Member, update_from}
use cranesps.DMember.Types.{MemberMap}
use cranesps.DMember.Tables.{hear_map, hear_maps}

-- The newest of `c` and the counts that a map, or the queue, tells of `j`.
abbrev pub newest : String → MemberMap → ℕ → ℕ
newest j [] c = c
newest j ((key, other) ∷ rest) c =
    newest j rest (if str_eq key j then (if ltb c other.count then other.count else c) else c)

abbrev pub newest_all : String → List MemberMap → ℕ → ℕ
newest_all j [] c = c
newest_all j (next ∷ rest) c = newest_all j rest (newest j next c)

pub newest-ge : (j : String) (next : MemberMap) (c : ℕ) → c ≤ newest j next c
newest-ge j [] c = omega arith
newest-ge j ((key, other) ∷ rest) c =
    ground (arith, newest-ge j rest c, newest-ge j rest other.count)

pub newest_all-ge : (j : String) (queue : List MemberMap) (c : ℕ) → c ≤ newest_all j queue c
newest_all-ge j [] c = omega arith
newest_all-ge j (next ∷ rest) c =
    omega (arith, newest-ge j next c, newest_all-ge j rest (newest j next c))

abbrev Counted : ℕ → Option Member → Type 0
Counted c o = (m : Member) × (o ≡ some m) × (m.count ≡ c)

update_from-count :
    (now : ℕ) (other mine : Member)
    → (update_from other now mine).count
      ≡ (if ltb mine.count other.count then other.count else mine.count)
unfolding update_from
update_from-count now other mine = ground arith

hear_map-Counted :
    (clock : String → ℕ) (j : String) (next : MemberMap) (m : Member)
    → Counted (newest j next m.count) (hear_map clock j next (some m))
unfolding hear_map
hear_map-Counted clock j [] m = (m, refl, refl)
hear_map-Counted clock j ((key, other) ∷ rest) m = elim (Bool-cases (str_eq key j)) [
  | inl e ↦
      rw (e, ← update_from-count (clock key) other m)
        (hear_map-Counted clock j rest (update_from other (clock key) m))
  | inr e ↦ rw e (hear_map-Counted clock j rest m)
]

-- The merges end with the newest count there is.
pub hear_maps-Counted :
    (clock : ℕ → String → ℕ) (j : String) (queue : List MemberMap) (m : Member)
    → Counted (newest_all j queue m.count) (hear_maps clock j queue (some m))
unfolding hear_maps
hear_maps-Counted clock j [] m = (m, refl, refl)
hear_maps-Counted clock j (next ∷ rest) m =
    let (m', e, c) = hear_map-Counted (clock 0) j next m in
    rw (e, ← c) (hear_maps-Counted (λ i. clock (suc i)) j rest m')

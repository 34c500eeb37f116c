-- ===== src/Nimbus/Assign/Wanted.antt =====
-- How many tasks of a name a specification has.
use cranesps.Base.{
  ℕ, zero, suc, ◌+◌, String, ◌≡◌, refl, List, [], ◌∷◌, ◌++◌, arith, map, if◌then◌else◌,
}
use cranesps.Base.Text.{str_eq}
use cranesps.Nimbus.Stats.{SpoutSpec, BoltSpec, TopologySpec}
use cranesps.Nimbus.Assign.{copies, bolt_tasks, tasks}
use cranesps.Nimbus.Assign.Counts.{occurrences}

-- How many workers a specification wants for a name: one for each spout of the name, and for each
-- bolt of the name as many as its parallelism.
abbrev spouts_of : String → List SpoutSpec → ℕ
spouts_of x [] = 0
spouts_of x (ss ∷ specs) =
    let rest = spouts_of x specs in if str_eq ss.name x then suc rest else rest

abbrev bolts_of : String → List BoltSpec → ℕ
bolts_of x [] = 0
bolts_of x (bs ∷ specs) =
    let rest = bolts_of x specs in if str_eq bs.name x then bs.para_level + rest else rest

abbrev pub wanted : String → TopologySpec → ℕ
wanted x spec = spouts_of x spec.spout_specs + bolts_of x spec.bolt_specs

occurrences-append :
    (x : String) (a b : List String) → occurrences x (a ++ b) ≡ occurrences x a + occurrences x b
unfolding occurrences
occurrences-append x [] b = ground arith
occurrences-append x (y ∷ a) b = ground (arith, occurrences-append x a b)

occurrences-copies :
    (x name : String) (k : ℕ) → occurrences x (copies k name) ≡ (if str_eq name x then k else 0)
unfolding occurrences
occurrences-copies x name zero = ground arith
occurrences-copies x name (suc k) = ground (arith, occurrences-copies x name k)

occurrences-bolt_tasks :
    (x : String) (specs : List BoltSpec) → occurrences x (bolt_tasks specs) ≡ bolts_of x specs
unfolding bolt_tasks occurrences
occurrences-bolt_tasks x [] = refl
occurrences-bolt_tasks x (bs ∷ specs) = ground (
  arith,
  occurrences-append x (copies bs.para_level bs.name) (bolt_tasks specs),
  occurrences-copies x bs.name bs.para_level,
  occurrences-bolt_tasks x specs,
)

occurrences-spouts :
    (x : String) (specs : List SpoutSpec)
    → occurrences x (map (λ (ss : SpoutSpec). ss.name) specs) ≡ spouts_of x specs
unfolding occurrences
occurrences-spouts x [] = refl
occurrences-spouts x (ss ∷ specs) = ground (arith, occurrences-spouts x specs)

pub occurrences-tasks :
    (x : String) (spec : TopologySpec) → occurrences x (tasks spec) ≡ wanted x spec
unfolding tasks
occurrences-tasks x spec =
    let spouts = map (λ (ss : SpoutSpec). ss.name) spec.spout_specs in
    omega (
      arith,
      occurrences-append x spouts (bolt_tasks spec.bolt_specs),
      occurrences-spouts x spec.spout_specs,
      occurrences-bolt_tasks x spec.bolt_specs,
    )

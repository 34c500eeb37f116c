-- ===== src/DMember/Tables/Heard.antt =====
-- What the queue says about one member, and how a property of its record passes through it.
use cranesps.Base.{
  string_key, ℕ, suc, ◌≤◌, String, ◌≡◌, ◌⊎◌, refl, sym, ◌∙◌, subst, Bool, false, ◌&&◌, ◌||◌, ltb,
  inl, inr, true, Option, some, List, [], ◌∷◌, arith, Bool-cases,
}
use cranesps.Base.Text.{str_eq}
use cranesps.Member.{Member, update_from}
use cranesps.DMember.Types.{MemberMap}
use cranesps.DMember.Tables.{hear, hear_map, hear_maps}

-- `Q` holds of every record about `j` in the map, and of its reading.
abbrev pub About : (ℕ → Member → Type 0) → (String → ℕ) → String → MemberMap → Type 0
About Q clock j [] = Unit
About Q clock j ((key, other) ∷ rest) =
    (str_eq key j ≡ true → Q (clock key) other) × About Q clock j rest

abbrev pub AboutAll : (ℕ → Member → Type 0) → (ℕ → String → ℕ) → String → List MemberMap → Type 0
AboutAll Q clock j [] = Unit
AboutAll Q clock j (next ∷ rest) = About Q (clock 0) j next × AboutAll Q (λ i. clock (suc i)) j rest

module _ (Q : ℕ → Member → Type 0) (P : Option Member → Type 0)
    (keep : (now : ℕ) (other : Member) (o : Option Member)
      → Q now other
      → P o
      → P (hear now other o)) where
  hear_map_inv :
      (clock : String → ℕ) (j : String) (next : MemberMap) (o : Option Member)
      → About Q clock j next
      → P o
      → P (hear_map clock j next o)
  unfolding hear_map
  hear_map_inv clock j [] o q p = p
  hear_map_inv clock j ((key, other) ∷ rest) o q p = elim (Bool-cases (str_eq key j)) [
    | inl e ↦ rw e (hear_map_inv clock j rest _ q.1 (keep (clock key) other o (q.0 e) p))
    | inr e ↦ rw e (hear_map_inv clock j rest o q.1 p)
  ]

  pub hear_maps_inv :
      (clock : ℕ → String → ℕ) (j : String) (queue : List MemberMap) (o : Option Member)
      → AboutAll Q clock j queue
      → P o
      → P (hear_maps clock j queue o)
  unfolding hear_maps
  hear_maps_inv clock j [] o q p = p
  hear_maps_inv clock j (next ∷ rest) o q p =
      hear_maps_inv (λ i. clock (suc i)) j rest _ q.1 (hear_map_inv (clock 0) j next o q.0 p)

-- Nothing newer than count `c`.
abbrev pub Stale : ℕ → ℕ → Member → Type 0
Stale c now other = other.count ≤ c

pub hear-Stale :
    (clock : ℕ → String → ℕ) (j : String) (queue : List MemberMap) (m : Member)
    → AboutAll (Stale m.count) clock j queue
    → hear_maps clock j queue (some m) ≡ some m
hear-Stale clock j queue m q =
    hear_maps_inv (Stale m.count) (λ o. o ≡ some m)
      (λ now other o old e. rw e (unfold update_from in ground arith)) clock j queue (some m) q refl

-- Read between `lo` and `hi`.
abbrev pub Within : ℕ → ℕ → ℕ → Member → Type 0
Within lo hi now other = (lo ≤ now) × (now ≤ hi)

abbrev pub Recent : ℕ → ℕ → Option Member → Type 0
Recent lo hi o = (m : Member) × (o ≡ some m) × (lo ≤ m.last_update) × (m.last_update ≤ hi)

-- Some record about `j` in the map has a count above `c`.
abbrev tells : ℕ → String → MemberMap → Bool
tells c j [] = false
tells c j ((key, other) ∷ rest) = (str_eq key j && ltb c other.count) || tells c j rest

abbrev pub tells_all : ℕ → String → List MemberMap → Bool
tells_all c j [] = false
tells_all c j (next ∷ rest) = tells c j next || tells_all c j rest

-- A record that was renewed at `lo` or later, or the old one if nothing newer was told.
abbrev Renewed : ℕ → ℕ → Bool → Member → Option Member → Type 0
Renewed lo hi told mine o =
    (m : Member) × (o ≡ some m)
    × (m.last_update ≤ hi)
    × ((lo ≤ m.last_update) ⊎ ((m ≡ mine) × (told ≡ false)))

hear_map-Renewed :
    (lo hi : ℕ) (clock : String → ℕ) (j : String) (next : MemberMap) (mine : Member)
    → About (Within lo hi) clock j next
    → mine.last_update ≤ hi
    → Renewed lo hi (tells mine.count j next) mine (hear_map clock j next (some mine))
unfolding hear_map
hear_map-Renewed lo hi clock j [] mine q high = (mine, refl, high, inr (refl, refl))
hear_map-Renewed lo hi clock j ((key, other) ∷ rest) mine q high =
    elim (Bool-cases (str_eq key j)) [
      | inr e ↦ rw e (hear_map-Renewed lo hi clock j rest mine q.1 high)
      | inl e ↦ elim (Bool-cases (ltb mine.count other.count)) [
        | inl newer ↦
            let now = q.0 e in
            let mine' : Member = update_from other (clock key) mine in
            let at : mine'.last_update ≡ clock key = unfold update_from in ground (arith, newer) in
            let (m, is, low, kept) = hear_map-Renewed lo hi clock j rest mine' q.1 (rw at now.1) in
            rw e (
              m,
              is,
              low,
              elim kept [
                | inl recent ↦ inl recent
                | inr (same, _) ↦
                    inl (subst (λ (x : Member). lo ≤ x.last_update) (sym same) (rw at now.0))
              ],
            )
        | inr old ↦
            let same : update_from other (clock key) mine ≡ mine =
              unfold update_from in ground (arith, old) in
            rw (e, same, old) (hear_map-Renewed lo hi clock j rest mine q.1 high)
      ]
    ]

hear_maps-Renewed :
    (lo hi : ℕ) (clock : ℕ → String → ℕ) (j : String) (queue : List MemberMap) (mine : Member)
    → AboutAll (Within lo hi) clock j queue
    → mine.last_update ≤ hi
    → Renewed lo hi (tells_all mine.count j queue) mine (hear_maps clock j queue (some mine))
unfolding hear_maps
hear_maps-Renewed lo hi clock j [] mine q high = (mine, refl, high, inr (refl, refl))
hear_maps-Renewed lo hi clock j (next ∷ rest) mine q high =
    let (m, is, low, kept) = hear_map-Renewed lo hi (clock 0) j next mine q.0 high in
    let (m', is', low', kept') = hear_maps-Renewed lo hi (λ i. clock (suc i)) j rest m q.1 low in
    rw is (
      m',
      is',
      low',
      elim kept' [
        | inl recent ↦ inl recent
        | inr (same', quiet') ↦ elim kept [
          | inl recent ↦ inl (subst (λ (x : Member). lo ≤ x.last_update) (sym same') recent)
          | inr (same, quiet) ↦
              let quiet'' : tells_all mine.count j rest ≡ false =
                subst (λ (x : Member). tells_all x.count j rest ≡ false) same quiet' in
              inr (same' ∙ same, rw (quiet, quiet'') refl)
        ]
      ],
    )

-- A record that is recent, or that a newer one in the queue renews, is recent in the end.
pub hear-renewed :
    (lo hi : ℕ) (clock : ℕ → String → ℕ) (j : String) (queue : List MemberMap) (mine : Member)
    → AboutAll (Within lo hi) clock j queue
    → mine.last_update ≤ hi
    → (lo ≤ mine.last_update) ⊎ (tells_all mine.count j queue ≡ true)
    → Recent lo hi (hear_maps clock j queue (some mine))
hear-renewed lo hi clock j queue mine q high start =
    let (m, is, low, kept) = hear_maps-Renewed lo hi clock j queue mine q high in
    (
      m,
      is,
      elim kept [
        | inl recent ↦ recent
        | inr (same, quiet) ↦ elim start [
          | inl recent ↦ subst (λ (x : Member). lo ≤ x.last_update) (sym same) recent
          | inr told ↦ absurd (ground (arith, told, quiet))
        ]
      ],
      low,
    )

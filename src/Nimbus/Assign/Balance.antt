-- ===== src/Nimbus/Assign/Balance.antt =====
-- The tasks of a topology go to the supervisors in turn, so each gets its share.
use native.Mathlib.Nat.{mod-lt, mod_self, mod-eq_of_lt, suc-mul}
use cranesps.Base.{
  string_key, ℕ, zero, suc, ◌+◌, ◌-◌, ◌*◌, ◌%◌, ◌≤◌, ◌<◌, String, ◌≡◌, refl, sym, ap, ◌∙◌, subst,
  Bool, true, false, some, inl, inr, List, [], ◌∷◌, arith, length, get_elem?, any, All, All-get,
  leb, ◌==◌, if◌then◌else◌, Bool-cases, get_elem?-in,
}
use cranesps.Base.Text.{str_eq, str_eq_iff}
use cranesps.Base.StdMap.{lookup, set, at_or, lookup-set}
use cranesps.DMember.Connect.{own_index}
use cranesps.Nimbus.Stats.{Nimbus}
use cranesps.Nimbus.Assign.{Assignment, next_executor, push_task, assign}

-- The names of nodes, none twice and none empty.
abbrev pub IsRoster : List String → Type 0
IsRoster [] = Unit
IsRoster (s ∷ ss) = (str_eq s "" ≡ false) × (any (λ m. str_eq m s) ss ≡ false) × IsRoster ss

-- How often position p comes among k turns from position i on, out of m.
unfoldable turns : ℕ → ℕ → ℕ → ℕ → ℕ
turns p m i zero = 0
turns p m i (suc k) = let rest = turns p m (suc i % m) k in if i == p then suc rest else rest

-- How far position p is from position i.
abbrev distance : ℕ → ℕ → ℕ → ℕ
distance p m i = if leb i p then p - i else p + m - i

next_turn : (m i : ℕ) → i < m → suc i % m ≡ (if suc i == m then 0 else suc i)
next_turn m i h = elim (Bool-cases (suc i == m)) [
  | inl last ↦ let e : suc i ≡ m = ground (arith, last) in rw last (ap (λ x. x % m) e ∙ mod_self m)
  | inr more ↦ rw more (mod-eq_of_lt (ground (arith, more)))
]

distance-turn :
    (p m i : ℕ)
    → p < m
    → i < m
    → suc (distance p m (suc i % m)) ≡ (if i == p then m else distance p m i)
distance-turn p m i below at = let next = next_turn m i at in rw next (ground (arith, below, at))

share :
    (p m i k : ℕ)
    → p < m
    → i < m
    → (turns p m i k * m + distance p m i < k + m) × (k ≤ turns p m i k * m + distance p m i)
unfolding turns
share p m i zero below at = ground arith
share p m i (suc k) below at =
    let step = distance-turn p m i below at in
    let ih = share p m (suc i % m) k below (mod-lt (suc i) (omega arith)) in
    let more = suc-mul (turns p m (suc i % m) k) m in
    elim (Bool-cases (i == p)) [
      | inl now ↦
          let home : distance p m i ≡ 0 = ground (arith, now) in
          let back : suc (distance p m (suc i % m)) ≡ m = step ∙ rw now refl in
          rw (now, home) (omega (arith, more, back, ih), omega (arith, more, back, ih))
      | inr later ↦
          let near : suc (distance p m (suc i % m)) ≡ distance p m i = step ∙ rw later refl in
          rw (later, sym near) (omega (arith, ih), omega (arith, ih))
    ]

own_index-get_elem? :
    (ss : List String) (i : ℕ) (e : String)
    → IsRoster ss
    → get_elem? ss i ≡ some e
    → (own_index e ss ≡ i) × (str_eq e "" ≡ false)
unfolding own_index
own_index-get_elem? [] i e roster at = ground (arith, at)
own_index-get_elem? (s ∷ ss) zero e roster at =
    let same : s ≡ e = ground (arith, at) in
    subst (λ x. (own_index x (s ∷ ss) ≡ 0) × (str_eq x "" ≡ false)) same
      (ground (arith, str_eq_iff s s), roster.0)
own_index-get_elem? (s ∷ ss) (suc i) e roster at =
    let (index, named) = own_index-get_elem? ss i e roster.2 at in
    elim (Bool-cases (str_eq s e)) [
      | inl twice ↦
          let again = any-get_elem? ss i e at in
          let one =
            subst (λ x. any (λ m. str_eq m x) ss ≡ false) ((str_eq_iff s e).0 twice) roster.1 in
          absurd (ground (arith, again, one))
      | inr other ↦ (ground (arith, other, index), named)
    ]
  where
    any-get_elem? :
        (xs : List String) (i : ℕ) (e : String)
        → get_elem? xs i ≡ some e
        → any (λ m. str_eq m e) xs ≡ true
    any-get_elem? [] i e at = ground (arith, at)
    any-get_elem? (x ∷ xs) zero e at =
        let same : x ≡ e = ground (arith, at) in ground (arith, same, str_eq_iff x e)
    any-get_elem? (x ∷ xs) (suc i) e at = ground (arith, any-get_elem? xs i e at)

-- The position of the next supervisor.
abbrev turn : Nimbus → ℕ
turn n =
    if str_eq n.executor ""
    then 0
    else suc (own_index n.executor n.supervisors) % length n.supervisors

next_executor-turn :
    (n : Nimbus)
    → 0 < length n.supervisors
    → IsRoster n.supervisors
    → (turn n < length n.supervisors)
      × (e : String) × (get_elem? n.supervisors (turn n) ≡ some e)
      × (next_executor n ≡ some (e, record n { executor = e }))
      × (turn (record n { executor = e }) ≡ suc (turn n) % length n.supervisors)
unfolding next_executor
next_executor-turn n some_there roster =
    let low : turn n < length n.supervisors = elim (Bool-cases (str_eq n.executor "")) [
      | inl first ↦ rw first some_there
      | inr later ↦ rw later (mod-lt _ some_there)
    ] in
    let (e, found) = get_elem?-in n.supervisors (turn n) low in
    let (index, named) = own_index-get_elem? n.supervisors (turn n) e roster found in
    (
      low,
      e,
      found,
      elim (Bool-cases (str_eq n.executor "")) [
        | inl first ↦ let f = found in ground (arith, first, f)
        | inr later ↦ let f = found in ground (arith, later, f)
      ],
      rw (named, index) refl,
    )

-- The number of the tasks in the queue of a supervisor.
abbrev pub load : String → Assignment → ℕ
load s a = length (at_or s [] a)

length-push_task : (t : String) (q : List String) → length (push_task t q) ≡ suc (length q)
unfolding push_task
length-push_task t [] = refl
length-push_task t (x ∷ q) = ground (arith, length-push_task t q)

load-set :
    (e s t : String) (a : Assignment)
    → load s (set e (push_task t (at_or e [] a)) a)
      ≡ (if str_eq e s then suc (load s a) else load s a)
load-set e s t a = ground (
  arith,
  lookup-set e s (push_task t (at_or e [] a)) a,
  length-push_task t (at_or e [] a),
  str_eq_iff e s,
)

-- All tasks are assigned, and each supervisor gets those of its turns.
assign-turns :
    (ts : List String) (n : Nimbus) (a : Assignment)
    → 0 < length n.supervisors
    → IsRoster n.supervisors
    → (n' : Nimbus) × (b : Assignment) × (assign ts n a ≡ some (n', b))
      × ((p : ℕ) (s : String)
          → get_elem? n.supervisors p ≡ some s
          → load s b ≡ load s a + turns p (length n.supervisors) (turn n) (length ts))
unfolding assign turns
assign-turns [] n a some_there roster = (n, a, refl, λ p s at. omega arith)
assign-turns (t ∷ ts) n a some_there roster =
    let (low, e, found, next, moved) = next_executor-turn n some_there roster in
    let n1 : Nimbus = record n { executor = e } in
    let a1 = set e (push_task t (at_or e [] a)) a in
    let (n', b, rest, loads) = assign-turns ts n1 a1 some_there roster in
    (
      n',
      b,
      ground (arith, next, rest),
      λ p s at.
          let (index, _) = own_index-get_elem? n.supervisors p s roster at in
          let (home, _) = own_index-get_elem? n.supervisors (turn n) e roster found in
          let now = load-set e s t a in
          let met : str_eq e s ≡ (turn n == p) = elim (Bool-cases (turn n == p)) [
            | inl hit ↦
                let here : turn n ≡ p = ground (arith, hit) in
                let one : some e ≡ some s = sym found ∙ ap (get_elem? n.supervisors) here ∙ at in
                ground (arith, hit, one, str_eq_iff e s)
            | inr miss ↦ elim (Bool-cases (str_eq e s)) [
              | inl same ↦
                  let here : turn n ≡ p =
                    sym home
                    ∙ ap (λ x. own_index x n.supervisors) ((str_eq_iff e s).0 same)
                    ∙ index in
                  ground (arith, miss, here)
              | inr other ↦ ground (arith, miss, other)
            ]
          ] in
          counted (load s a) (load s a1) (load s b) _ _ _
            (now ∙ ap (λ c. if c then suc (load s a) else load s a) met) (loads p s at)
            (ap (λ i. turns p (length n.supervisors) i (length ts)) moved),
    )
  where
    counted :
        (old new last then_on again : ℕ) (hit : Bool)
        → new ≡ (if hit then suc old else old)
        → last ≡ new + then_on
        → then_on ≡ again
        → last ≡ old + (if hit then suc again else again)
    counted old new last then_on again true a b c = omega (arith, a, b, c)
    counted old new last then_on again false a b c = omega (arith, a, b, c)

-- Nimbus hands the tasks of a topology to the supervisors in turn, from whichever comes next: when
-- there is a supervisor, and no name of a supervisor is empty or stands twice, every task is
-- assigned, and of k tasks each of the m supervisors gets k / m, rounded down or up.
pub balanced :
    (ts : List String) (n : Nimbus)
    → 0 < length n.supervisors
    → IsRoster n.supervisors
    → (n' : Nimbus) × (b : Assignment) × (assign ts n [] ≡ some (n', b))
      × All
          (λ s.
            (load s b * length n.supervisors < length ts + length n.supervisors)
            × (length ts < load s b * length n.supervisors + length n.supervisors))
          n.supervisors
unfolding lookup
balanced ts n some_there roster =
    let (n', b, run, loads) = assign-turns ts n [] some_there roster in
    let m = length n.supervisors in
    let low = (next_executor-turn n some_there roster).0 in
    (
      n',
      b,
      run,
      All-get _ n.supervisors (λ p s at.
          let got = loads p s at in
          let below = get_elem?-below n.supervisors p s at in
          let part = share p m (turn n) (length ts) below low in
          let near : distance p m (turn n) < m = ground (arith, below, low) in
          rw got (omega (arith, part), omega (arith, part, near))),
    )
  where
    get_elem?-below :
        (ss : List String) (p : ℕ) (s : String) → get_elem? ss p ≡ some s → p < length ss
    get_elem?-below [] p s at = ground (arith, at)
    get_elem?-below (x ∷ ss) zero s at = omega arith
    get_elem?-below (x ∷ ss) (suc p) s at = let b = get_elem?-below ss p s at in omega (arith, b)

-- ===== src/UserCode/Counts.antt =====
-- The counts of the word count topology.
use cranesps.Base.{
  ℕ, ◌+◌, ◌%◌, ◌<◌, ◌≡◌, refl, ap, ◌∙◌, List, [], ◌∷◌, ◌==◌, some, filter, All, arith,
  if◌then◌else◌, suc, Bool-cases, inl, inr,
}
use cranesps.Base.Bytes.{bytes_eq, bytes_eq_iff, bytes_key}
use cranesps.Base.StdMap.{set, at_or, lookup-set}
use cranesps.Worker.Send.{Tuple, to_size, hash_field, destination}
use cranesps.Worker.Send.Routes.{goes_to, HasFirst}
use cranesps.Worker.Child.Tuples.{run_all}
use cranesps.UserCode.{first_field, Counters, count_word, word_count_bolt}

-- How often a word is the first field.
unfoldable pub occurs : List ℕ → List Tuple → ℕ
occurs w [] = 0
occurs w (t ∷ ts) = let rest = occurs w ts in if bytes_eq (first_field t) w then suc rest else rest

count-set :
    (w word : List ℕ) (m : Counters)
    → at_or w 0 (set word (count_word word m) m)
      ≡ (if bytes_eq word w then (at_or w 0 m + 1) % 4294967296 else at_or w 0 m)
count-set w word m = elim (Bool-cases (bytes_eq word w)) [
  | inl same ↦
      let e : word ≡ w = (bytes_eq_iff word w).0 same in
      ground (arith, lookup-set word w (count_word word m) m, same, e)
  | inr other ↦ ground (arith, lookup-set word w (count_word word m) m, other)
]

wrapped : (a b : ℕ) → ((a + 1) % 4294967296 + b) % 4294967296 ≡ (a + suc b) % 4294967296
wrapped a b = omega arith

module _ (to_string : ℕ → List ℕ) where
  -- The counters of the bolt.
  pub counters_lem :
      (w : List ℕ) (m : Counters) (ts : List Tuple)
      → at_or w 0 m < 4294967296
      → at_or w 0 (run_all (word_count_bolt to_string) m ts).0
        ≡ (at_or w 0 m + occurs w ts) % 4294967296
  unfolding run_all occurs
  counters_lem w m [] small = omega arith
  counters_lem w m (t ∷ ts) small =
      let word = first_field t in
      let next = set word (count_word word m) m in
      let now = count-set w word m in
      elim (Bool-cases (bytes_eq word w)) [
        | inl same ↦
            let up : at_or w 0 next ≡ (at_or w 0 m + 1) % 4294967296 = now ∙ rw same refl in
            let ih = counters_lem w next ts (omega (arith, up)) in
            rw same (
              ih
              ∙ ap (λ x. (x + occurs w ts) % 4294967296) up
              ∙ wrapped (at_or w 0 m) (occurs w ts))
        | inr other ↦
            let still : at_or w 0 next ≡ at_or w 0 m = now ∙ rw other refl in
            let ih = counters_lem w next ts (omega (arith, still)) in
            rw other (ih ∙ ap (λ x. (x + occurs w ts) % 4294967296) still)
      ]

-- Where a word goes in a field grouping over n connections.
abbrev pub place : List ℕ → ℕ → ℕ
place w n = to_size (hash_field w) % suc n

destination-place :
    (n : ℕ) (t : Tuple) → HasFirst t → destination (suc n) t ≡ some (place (first_field t) n)
unfolding destination
destination-place n t (str, rest, first) = rw (destination, first) refl

occurs-kept :
    (i : ℕ) (w : List ℕ) (t : Tuple) (kept ts : List Tuple) (p q : ℕ)
    → (first_field t ≡ w → p ≡ q)
    → occurs w kept ≡ (if q == i then occurs w ts else 0)
    → occurs w (if p == i then t ∷ kept else kept) ≡ (if q == i then occurs w (t ∷ ts) else 0)
unfolding occurs
occurs-kept i w t kept ts p q same ih = elim (Bool-cases (bytes_eq (first_field t) w)) [
  | inl hit ↦
      let e = same ((bytes_eq_iff (first_field t) w).0 hit) in
      elim (Bool-cases (q == i)) [
        | inl here ↦ ground (arith, hit, e, here, ih)
        | inr away ↦ ground (arith, hit, e, away, ih)
      ]
  | inr miss ↦ elim (Bool-cases (p == i)) [
    | inl here ↦ ground (arith, miss, here, ih)
    | inr away ↦ ground (arith, miss, away, ih)
  ]
]

-- All tuples of a word go to one connection.
pub occurs-filter :
    (n i : ℕ) (w : List ℕ) (ts : List Tuple)
    → All HasFirst ts
    → occurs w (filter (λ t. goes_to (destination (suc n) t) i) ts)
      ≡ (if place w n == i then occurs w ts else 0)
unfolding occurs
occurs-filter n i w [] firsts = ground arith
occurs-filter n i w (t ∷ ts) firsts =
    let goes = destination-place n t firsts.0 in
    let ih = occurs-filter n i w ts firsts.1 in
    let kept : filter (λ x. goes_to (destination (suc n) x) i) (t ∷ ts) ≡ (
        if place (first_field t) n == i
        then t ∷ filter (λ x. goes_to (destination (suc n) x) i) ts
        else filter (λ x. goes_to (destination (suc n) x) i) ts) =
      rw goes refl in
    rw kept (
      occurs-kept i w t (filter (λ x. goes_to (destination (suc n) x) i) ts) ts
        (place (first_field t) n) (place w n) (λ e. ap (λ x. place x n) e) ih)

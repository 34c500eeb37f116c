-- ===== src/Topology/Builder/Found.antt =====
-- The invariant of the search of `buildTopology`: what has been visited, found and queued.
use cranesps.Base.{
  string_key, ℕ, zero, suc, String, ◌≡◌, sym, ap, ◌∙◌, some, List, [], ◌∷◌, ◌++◌, All, All-snoc,
  All-get, arith, List-cases, Option-cases, inl, inr, subst, append_nil, get_elem?,
}
use mathlib.Core.List.{append_assoc}
use cranesps.Base.StdMap.{lookup, at_or}
use cranesps.Base.StdMap.Order.{IsSorted, set-IsSorted}
use cranesps.Nimbus.Stats.{BoltSpec}
use cranesps.Nimbus.Assign.Counts.{occurrences}
use cranesps.Topology.Grouping.{GroupingScheme}
use cranesps.Topology.Builder.{
  Node, Nodes, returns, Search, new_node, new_bolt, edge_of, visit_child, visit_children, visit,
  search_bolts, ◌>>=◌, >>=-eq-returns,
}
use cranesps.Topology.Builder.Steps.{
  Edges, edges_from, edges_to, bolt_for, edges_to-snoc, count_at, one_edge, visit_child-cases,
  Holds-new, Holds-more, Counted-new, Counted-more, edges_from-cons,
}

-- The names that the spouts lead to along the edges.
pub data Reachable (nodes : Nodes) (spouts : List String) : String → Type 0 where
  from_spout :
      (i : ℕ) (name : String) → get_elem? spouts i ≡ some name → Reachable nodes spouts name
  along :
      (name : String) (n : Node) (i : ℕ) (child : String × GroupingScheme)
      → Reachable nodes spouts name
      → lookup name nodes ≡ some n
      → get_elem? n.children i ≡ some child
      → Reachable nodes spouts child.0

module _ (nodes : Nodes) (spouts : List String) where
  -- The search so far: the names visited and queued are the spouts and the bolts, each bolt once,
  -- and the bolts have the edges seen.
  pub record IsFound (visited found : List String) (es : String → Edges) (s : Search) : Type 0 where
    pub holds : (k : String) → lookup k s.bolt_map ≡ bolt_for nodes k (es k)
    pub counted : (k : String) → occurrences k found ≡ count_at k s.bolt_map
    pub sorted : IsSorted s.bolt_map
    pub order : visited ++ s.queue ≡ spouts ++ found
    pub reached : All (Reachable nodes spouts) found
    pub waiting : All (Reachable nodes spouts) s.queue

  IsFound-visit_child :
      (parent : String) (c : String × GroupingScheme) (visited found : List String)
      → (es : String → Edges) (s t : Search) → IsFound visited found es s
      → Reachable nodes spouts c.0
      → visit_child nodes parent c s ≡ returns t
      → (found' : List String) × IsFound visited found' (λ k. es k ++ one_edge nodes parent c k) t
  IsFound-visit_child parent (name, scheme) visited found es s t h r run =
      let e : String × String = edge_of parent scheme in
      elim (visit_child-cases nodes parent name scheme s t run) [
        | inl (new, after) ↦
            let b = new_bolt (at_or name new_node nodes) (e ∷ []) in
            (
              found ++ name ∷ [],
              subst
                  (IsFound visited (found ++ name ∷ [])
                    (λ k. es k ++ one_edge nodes parent (name, scheme) k))
                  (sym after)
                  (record {
                    holds = λ k. Holds-new nodes k name e s.bolt_map (es k) new (h.holds k);
                    counted =
                        λ k. Counted-new nodes k name e s.bolt_map (es k) found b new (h.counted k);
                    sorted = set-IsSorted name b s.bolt_map h.sorted;
                    order = cc (
                      h.order,
                      append_assoc visited s.queue (name ∷ []),
                      append_assoc spouts found (name ∷ []),
                    );
                    reached = All-snoc (Reachable nodes spouts) found name h.reached r;
                    waiting = All-snoc (Reachable nodes spouts) s.queue name h.waiting r;
                  }),
            )
        | inr (bs, old, after) ↦
            let more : BoltSpec = record bs { parents = bs.parents ++ e ∷ [] } in
            (
              found,
              subst (IsFound visited found (λ k. es k ++ one_edge nodes parent (name, scheme) k))
                  (sym after)
                  (record {
                    holds = λ k. Holds-more nodes k name e s.bolt_map (es k) bs old (h.holds k);
                    counted = λ k.
                        Counted-more nodes k name e s.bolt_map (es k) found more bs old
                          (h.counted k);
                    sorted = set-IsSorted name more s.bolt_map h.sorted;
                    order = h.order;
                    reached = h.reached;
                    waiting = h.waiting;
                  }),
            )
      ]

  IsFound-edges :
      (visited found : List String) (es es' : String → Edges) (s : Search)
      → ((k : String) → es k ≡ es' k)
      → IsFound visited found es s
      → IsFound visited found es' s
  IsFound-edges visited found es es' s same h = record {
    holds = λ k. h.holds k ∙ ap (bolt_for nodes k) (same k);
    counted = h.counted;
    sorted = h.sorted;
    order = h.order;
    reached = h.reached;
    waiting = h.waiting;
  }

  IsFound-visit_children :
      (parent : String) (children : List (String × GroupingScheme)) (visited found : List String)
      → (es : String → Edges) (s t : Search) → IsFound visited found es s
      → All (λ c. Reachable nodes spouts c.0) children
      → visit_children nodes parent children s ≡ returns t
      → (found' : List String) × IsFound visited found'
          (λ k. es k ++ edges_from parent children k)
          t
  unfolding visit_children edges_from
  IsFound-visit_children parent [] visited found es s t h r run =
      let e : s ≡ t = ground (arith, run) in
      (
        found,
        subst (IsFound visited found _) e
            (IsFound-edges visited found es (λ k. es k ++ []) s (λ k. sym (append_nil (es k))) h),
      )
  IsFound-visit_children parent (c ∷ children) visited found es s t h r run =
      let (mid, first, rest) =
        >>=-eq-returns (visit_child nodes parent c s) (visit_children nodes parent children) run in
      let (found', h') = IsFound-visit_child parent c visited found es s mid h r.0 first in
      let (last, h'') = IsFound-visit_children parent children visited found' _ mid t h' r.1 rest in
      (
        last,
        IsFound-edges visited last _ _ t
            (λ k.
              append_assoc (es k) (one_edge nodes parent c k) (edges_from parent children k)
              ∙ ap (λ r. es k ++ r) (sym (edges_from-cons nodes parent k c children)))
            h'',
      )

  IsFound-visit :
      (id : String) (rest visited found : List String) (s t : Search)
      → s.queue ≡ id ∷ rest
      → IsFound visited found (edges_to nodes visited) s
      → visit nodes id (record s { queue = rest }) ≡ returns t
      → (found' : List String) × IsFound
          (visited ++ id ∷ [])
          found'
          (edges_to nodes (visited ++ id ∷ []))
          t
  unfolding visit
  IsFound-visit id rest visited found s t e h run = elim (Option-cases (lookup id nodes)) [
    | inl missing ↦ absurd (ground (arith, missing, run))
    | inr (n, there) ↦
        let waits : All (Reachable nodes spouts) (id ∷ rest) = rw e at h.waiting in
        let popped : Search = record s { queue = rest } in
        let goes : visit_children nodes n.id n.children popped ≡ returns t =
          ground (arith, there, run) in
        let start : IsFound (visited ++ id ∷ []) found (edges_to nodes visited) popped = record {
          holds = h.holds;
          counted = h.counted;
          sorted = h.sorted;
          order = append_assoc visited (id ∷ []) rest ∙ ap (λ q. visited ++ q) (sym e) ∙ h.order;
          reached = h.reached;
          waiting = waits.1;
        } in
        let (found', h') =
          IsFound-visit_children n.id n.children (visited ++ id ∷ []) found (edges_to nodes visited)
            popped t start
            (All-get (λ c. Reachable nodes spouts c.0) n.children
              (λ i c at. along id n i c waits.0 there at))
            goes in
        let at : at_or id new_node nodes ≡ n = ground (arith, there) in
        (
          found',
          IsFound-edges (visited ++ id ∷ []) found' _ _ t
              (λ k.
                subst
                  (λ (x : Node).
                    edges_to nodes visited k ++ edges_from x.id x.children k
                    ≡ edges_to nodes (visited ++ id ∷ []) k)
                  at (sym (edges_to-snoc nodes visited id k)))
              h',
        )
  ]

  -- What the search returns has visited all that it found.
  abbrev pub IsComplete : Search → Type 0
  IsComplete t =
      (found : List String) × IsFound (spouts ++ found) found (edges_to nodes (spouts ++ found)) t

  IsComplete-empty :
      (t : Search) (visited found : List String)
      → t.queue ≡ []
      → IsFound visited found (edges_to nodes visited) t
      → IsComplete t
  IsComplete-empty t visited found empty h =
      let all : visited ≡ spouts ++ found =
        sym (append_nil visited) ∙ ap (λ q. visited ++ q) (sym empty) ∙ h.order in
      (found, subst (λ v. IsFound v found (edges_to nodes v) t) all h)

  pub search_bolts-IsComplete :
      (fuel : ℕ) (s t : Search) (visited found : List String)
      → IsFound visited found (edges_to nodes visited) s
      → search_bolts nodes fuel s ≡ returns t
      → IsComplete t
  unfolding search_bolts
  search_bolts-IsComplete zero s t visited found h run = elim (List-cases s.queue) [
    | inl empty ↦
        let e : s ≡ t = ground (arith, empty, run) in
        subst IsComplete e (IsComplete-empty s visited found empty h)
    | inr (id, rest, e) ↦ absurd (ground (arith, e, run))
  ]
  search_bolts-IsComplete (suc fuel) s t visited found h run = elim (List-cases s.queue) [
    | inl empty ↦
        let e : s ≡ t = ground (arith, empty, run) in
        subst IsComplete e (IsComplete-empty s visited found empty h)
    | inr (id, rest, e) ↦
        let popped : Search = record s { queue = rest } in
        let goes : (visit nodes id popped >>= search_bolts nodes fuel) ≡ returns t =
          rw (search_bolts, e) at run in
        let (next, first, later) =
          >>=-eq-returns (visit nodes id popped) (search_bolts nodes fuel) goes in
        let (found', h') = IsFound-visit id rest visited found s next e h first in
        search_bolts-IsComplete fuel next t (visited ++ id ∷ []) found' h' later
  ]

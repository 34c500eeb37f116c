-- ===== src/Worker/Send/Routes.antt =====
-- Where each tuple of a batch goes: the messages of `dataSendThread` against a rule for one tuple.
use cranesps.Base.{
  ℕ, zero, suc, ◌%◌, ◌<◌, ◌≡◌, refl, sym, ◌∙◌, Bool, true, false, Option, none, some, List, [], ◌∷◌,
  ◌++◌, filter, All, length, get_elem?-in, ◌==◌, ==_iff, nat_key, arith, if◌then◌else◌,
  Option-cases, inl, inr, append_nil, ◌⊎◌,
}
use mathlib.Core.List.{append_assoc}
use cranesps.Base.StdMap.{lookup, set, at_or, lookup-set}
use cranesps.Base.StdMap.Order.{IsSorted, lookup-Above, set-IsSorted}
use cranesps.Topology.Grouping.{shuffle, field, parse_grouping_string}
use cranesps.Worker.Send.{
  Tuple, CraneTuple, InternalConnectionGroup, create_tuple_message, create_tuple_batch_message,
  destination, field_messages, hash_field, to_size, send_group,
}

-- The rule: what one tuple alone says about the connection that it goes to.
abbrev pub goes_to : Option ℕ → ℕ → Bool
goes_to none i = false
goes_to (some d) i = d == i

-- What a connection is sent, over all messages of a group.
abbrev pub sent_to : ℕ → List (ℕ × List CraneTuple) → List CraneTuple
sent_to i [] = []
sent_to i ((j, batch) ∷ rest) =
    let later = sent_to i rest in if j == i then batch ++ later else later

abbrev pub HasRoute : ℕ → Tuple → Type 0
HasRoute n t = (d : ℕ) × (destination n t ≡ some d)

pub destination_lt : (n d : ℕ) (t : Tuple) → destination n t ≡ some d → d < n
unfolding destination
destination_lt n d t h = ground arith

-- The tuples of a batch that go to a connection, in order.
abbrev pub bound_for : (Tuple → Option ℕ) → ℕ → List Tuple → List CraneTuple
bound_for dest i ts = create_tuple_batch_message (filter (λ t. goes_to (dest t) i) ts)

abbrev when : Bool → CraneTuple → List CraneTuple
when true x = x ∷ []
when false x = []

bound_for-cons :
    (dest : Tuple → Option ℕ) (i d : ℕ) (t : Tuple) (ts : List Tuple)
    → dest t ≡ some d
    → bound_for dest i (t ∷ ts) ≡ when (d == i) (create_tuple_message t) ++ bound_for dest i ts
unfolding create_tuple_batch_message
bound_for-cons dest i d t ts h = ground (arith, h)

at_or-set :
    (i d : ℕ) (x : CraneTuple) (m : List (ℕ × List CraneTuple))
    → at_or i [] (set d (at_or d [] m ++ x ∷ []) m) ≡ at_or i [] m ++ when (d == i) x
at_or-set i d x m =
    ground (arith, lookup-set d i (at_or d [] m ++ x ∷ []) m, ==_iff d i, append_nil (at_or i [] m))

at_or-field_messages :
    (n : ℕ) (ts : List Tuple) (m : List (ℕ × List CraneTuple))
    → All (HasRoute n) ts
    → IsSorted m
    → (after : List (ℕ × List CraneTuple)) × (field_messages n ts m ≡ some after)
      × IsSorted after
      × ((i : ℕ) → at_or i [] after ≡ at_or i [] m ++ bound_for (destination n) i ts)
unfolding field_messages create_tuple_batch_message
at_or-field_messages n [] m r s = (m, refl, s, λ i. sym (append_nil (at_or i [] m)))
at_or-field_messages n (t ∷ ts) m r s =
    let (d, goes) = r.0 in
    let x = create_tuple_message t in
    let batch = at_or d [] m ++ x ∷ [] in
    let (after, run, sorted, exact) =
      at_or-field_messages n ts (set d batch m) r.1 (set-IsSorted d batch m s) in
    (
      after,
      rw (field_messages, goes) run,
      sorted,
      λ i. cc (
        exact i,
        at_or-set i d x m,
        append_assoc (at_or i [] m) (when (d == i) x) (bound_for (destination n) i ts),
        bound_for-cons (destination n) i d t ts goes,
      ),
    )

-- In a sorted map each connection has one entry, so it is sent what the entry says.
sent_to-sorted : (i : ℕ) (m : List (ℕ × List CraneTuple)) → IsSorted m → sent_to i m ≡ at_or i [] m
unfolding lookup
sent_to-sorted i [] s = refl
sent_to-sorted i ((j, batch) ∷ m) s =
    ground (arith, ==_iff j i, sent_to-sorted i m s.1, lookup-Above j m s.0, append_nil batch)

bound_for-const :
    (draw i : ℕ) (ts : List Tuple)
    → bound_for (λ _. some draw) i ts ≡ (if draw == i then create_tuple_batch_message ts else [])
unfolding create_tuple_batch_message
bound_for-const draw i [] = ground arith
bound_for-const draw i (t ∷ ts) = ground (arith, bound_for-const draw i ts)

abbrev IsBelow : ℕ → ℕ × List CraneTuple → Type 0
IsBelow n m = m.0 < n

set-IsBelow :
    (n d : ℕ) (batch : List CraneTuple) (m : List (ℕ × List CraneTuple))
    → d < n
    → All (IsBelow n) m
    → All (IsBelow n) (set d batch m)
unfolding set
set-IsBelow n d batch [] h b = (h, tt)
set-IsBelow n d batch ((j, other) ∷ m) h b = ground (arith, set-IsBelow n d batch m h b.1)

field_messages-IsBelow :
    (n : ℕ) (ts : List Tuple) (m after : List (ℕ × List CraneTuple))
    → field_messages n ts m ≡ some after
    → All (IsBelow n) m
    → All (IsBelow n) after
unfolding field_messages
field_messages-IsBelow n [] m after run b = ground (arith, b, run)
field_messages-IsBelow n (t ∷ ts) m after run b = elim (Option-cases (destination n t)) [
  | inl stuck ↦ ground (arith, stuck, run)
  | inr (d, goes) ↦
      let batch = at_or d [] m ++ create_tuple_message t ∷ [] in
      let rest : field_messages n ts (set d batch m) ≡ some after = ground (arith, goes, run) in
      field_messages-IsBelow n ts (set d batch m) after rest
        (set-IsBelow n d batch m (destination_lt n d t goes) b)
]

-- The rule of a group: SHUFFLE sends a whole batch to the connection drawn, FIELD each tuple by
-- the hash of its first field.
unfoldable pub route : ℕ → InternalConnectionGroup → Tuple → Option ℕ
route draw g t = elim (parse_grouping_string g.grouping) [
  | some shuffle ↦ some draw
  | some field ↦ destination (length g.connections) t
  | _ ↦ none
]

abbrev pub HasFirst : Tuple → Type 0
HasFirst t = (str : List ℕ) × (rest : List (List ℕ)) × (t.fields ≡ str ∷ rest)

HasFirst-HasRoute : (n : ℕ) (ts : List Tuple) → 0 < n → All HasFirst ts → All (HasRoute n) ts
unfolding destination
HasFirst-HasRoute n [] pos firsts = tt
HasFirst-HasRoute zero ts pos firsts = absurd (omega arith)
HasFirst-HasRoute (suc n) (t ∷ ts) pos ((str, rest, first), firsts) = (
  (to_size (hash_field str) % suc n, rw (destination, first)),
  HasFirst-HasRoute (suc n) ts pos firsts,
)

-- What the code needs: a scheme that it parses, a draw in range, and for FIELD a connection and
-- first fields.
abbrev pub IsSendable : ℕ → List Tuple → InternalConnectionGroup → Type 0
IsSendable draw ts g =
    ((parse_grouping_string g.grouping ≡ some shuffle) × (draw < length g.connections))
    ⊎ ((parse_grouping_string g.grouping ≡ some field)
        × (0 < length g.connections)
        × All HasFirst ts)

-- Every connection of a group is sent exactly the tuples of the batch that the rule gives it, in
-- their order, and each message goes to a connection that the group has.
pub send_group_exact :
    (draw : ℕ) (ts : List Tuple) (g : InternalConnectionGroup)
    → IsSendable draw ts g
    → (sent : List (ℕ × List CraneTuple)) × (send_group draw ts g ≡ some sent)
      × ((i : ℕ) → sent_to i sent ≡ bound_for (route draw g) i ts)
      × All (λ m. m.0 < length g.connections) sent
unfolding send_group route lookup
send_group_exact draw ts g (inl (scheme, in_range)) =
    let (address, there) = get_elem?-in g.connections draw in_range in
    let batch = create_tuple_batch_message ts in
    (
      (draw, batch) ∷ [],
      rw (send_group, scheme, there),
      λ i. rw (route, scheme) (ground (arith, bound_for-const draw i ts, append_nil batch)),
      (in_range, tt),
    )
send_group_exact draw ts g (inr (scheme, pos, firsts)) =
    let n = length g.connections in
    let routed = HasFirst-HasRoute n ts pos firsts in
    let (after, run, sorted, exact) = at_or-field_messages n ts [] routed tt in
    (
      after,
      rw (send_group, scheme) run,
      λ i. rw (route, scheme) (sent_to-sorted i after sorted ∙ exact i),
      field_messages-IsBelow n ts [] after run tt,
    )

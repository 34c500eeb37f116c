-- ===== src/Worker/Send.antt =====
-- `dataSendThread`: how a batch of tuples is sent to the groups of connections.
pub mod Routes
use cranesps.Base.{
  ℕ, zero, suc, ◌+◌, ◌-◌, ◌%◌, String, Option, none, some, List, [], ◌∷◌, ◌++◌, map, length, ltb,
  get_elem?, nat_key, if◌then◌else◌,
}
use cranesps.Base.StdMap.{set, at_or}
use cranesps.Topology.Grouping.{GroupingScheme, shuffle, field, all, default, parse_grouping_string}

-- A field is a text as its bytes, the identifier the bit pattern of an `int`.
pub record Tuple : Type 0 where
  pub id : ℕ
  pub fields : List (List ℕ)

-- The message `CraneTuple`; a `CraneTupleBatch` is a list of them.
pub record CraneTuple : Type 0 where
  pub id : ℕ
  pub fields : List (List ℕ)

-- A connection is known by the address it is connected to.
pub record InternalConnectionGroup : Type 0 where
  pub child_name : String
  pub grouping : String
  pub connections : List String

unfoldable pub create_tuple_message : Tuple → CraneTuple
create_tuple_message t = record { id = t.id; fields = t.fields }

unfoldable pub create_tuple_batch_message : List Tuple → List CraneTuple
create_tuple_batch_message = map create_tuple_message

-- `hash += c`: a `char` from 128 on is negative.
unfoldable pub hash_from : ℕ → List ℕ → ℕ
hash_from hash [] = hash
hash_from hash (c ∷ cs) =
    hash_from ((hash + (if ltb c 128 then c else c + 4294967040)) % 4294967296) cs

unfoldable pub hash_field : List ℕ → ℕ
hash_field = hash_from 0

-- An `int` as the `size_t` that the remainder is taken of.
unfoldable pub to_size : ℕ → ℕ
to_size h = if ltb h 2147483648 then h else h + 18446744069414584320

-- `hashField(tuple->data[0]) % connections.size()`; `none` for a tuple with no field, where the
-- source reads past the end, and where it divides by zero.
unfoldable pub destination : ℕ → Tuple → Option ℕ
destination zero t = none
destination (suc n) t = elim t.fields [
  | [] ↦ none
  | str ∷ _ ↦ some (to_size (hash_field str) % suc n)
]

-- A message for each destination, with the tuples of the batch in order.
unfoldable pub field_messages :
    ℕ → List Tuple → List (ℕ × List CraneTuple) → Option (List (ℕ × List CraneTuple))
field_messages n [] messages = some messages
field_messages n (t ∷ ts) messages = elim (destination n t) [
  | none ↦ none
  | some dest ↦
      field_messages n ts
        (set dest (at_or dest [] messages ++ create_tuple_message t ∷ []) messages)
]

-- One case of the `switch`: the messages sent, each with the index of its connection in the group.
-- `draw` is the number that `selectRandom` draws; `none` where the source has undefined behaviour.
unfoldable pub send_group :
    ℕ → List Tuple → InternalConnectionGroup → Option (List (ℕ × List CraneTuple))
send_group draw stream group = elim (parse_grouping_string group.grouping) [
  | some shuffle ↦ elim (get_elem? group.connections draw) [
    | none ↦ none
    | some _ ↦ some ((draw, create_tuple_batch_message stream) ∷ [])
  ]
  | some field ↦ field_messages (length group.connections) stream []
  | some all ↦ some []
  | some default ↦ some []
  | none ↦ none
]

-- The loop over the groups: the draws, one for each group, and the messages of each group.
unfoldable pub send_groups :
    (ℕ → ℕ) → List Tuple → List InternalConnectionGroup → Option (List (List (ℕ × List CraneTuple)))
send_groups draws stream [] = some []
send_groups draws stream (g ∷ gs) = elim (send_group (draws 0) stream g) [
  | none ↦ none
  | some sent ↦ elim (send_groups (λ i. draws (suc i)) stream gs) [
    | none ↦ none
    | some rest ↦ some (sent ∷ rest)
  ]
]

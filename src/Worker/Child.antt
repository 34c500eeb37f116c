-- ===== src/Worker/Child.antt =====
-- `ChildImpl`: the worker in the child process, its handlers and its threads. The queues `inData`
-- and `outData` are lists, first in, first out. A thread takes one atomic step at a time: it moves
-- one tuple from a queue to its `localStream`, or it works on that.
pub mod Tuples
pub mod Life
use cranesps.Base.{ℕ, String, Bool, true, false, Option, none, some, List, [], ◌∷◌, ◌++◌, map}
use cranesps.Worker.Send.{
  Tuple, CraneTuple, InternalConnectionGroup, create_tuple_batch_message, send_groups,
}

-- `Worker::ConnectionGroup`.
pub record ConnectionGroup : Type 0 where
  pub child_name : String
  pub grouping : String
  pub addresses : List String

-- A group of the message `ConfigureConnectionsRequest`.
pub record GroupedConnections : Type 0 where
  pub child_name : String
  pub grouping : String
  pub addresses : List String

pub data SupervisorRequest : Type 0 where
  config_conns : List GroupedConnections → SupervisorRequest
  start kill : SupervisorRequest

pub data SupervisorReplyType : Type 0 where
  config_conns_reply start_reply kill_reply : SupervisorReplyType

-- The user's class, which the worker loads from its library: `runOnTuple` of a bolt gives the
-- tuples it pushes, `nextTuple` of a spout the next one.
pub record TopologyNode (N : Type 0) : Type 0 where
  pub run_on_tuple : N → Tuple → N × List Tuple
  pub next_tuple : N → N × Tuple

-- `processing` and `sending` are the local streams; a thread with `running` or `flushing` has
-- found its queue empty and works on its stream.
pub record ChildImpl (N : Type 0) : Type 0 where
  pub id : String
  pub is_bolt : Bool
  pub connection_groups : List InternalConnectionGroup
  pub in_data : List Tuple
  pub out_data : List Tuple
  pub node : N
  pub processing : List Tuple
  pub running : Bool
  pub sending : List Tuple
  pub flushing : Bool
  pub started : Bool
  pub exited : Bool

-- What the handlers of TUPLE and TUPLE_BATCH copy.
abbrev pub read_tuple : CraneTuple → Tuple
read_tuple t = record { id = t.id; fields = t.fields }

-- Each address gets a connection of its own.
unfoldable pub connect_group : ConnectionGroup → InternalConnectionGroup
connect_group g = record {
  child_name = g.child_name;
  grouping = g.grouping;
  connections = g.addresses;
}

module _ {N : Type 0} where
  abbrev pub new_child : String → Bool → N → ChildImpl N
  new_child id is_bolt node = record {
    id = id;
    is_bolt = is_bolt;
    connection_groups = [];
    in_data = [];
    out_data = [];
    node = node;
    processing = [];
    running = false;
    sending = [];
    flushing = false;
    started = false;
    exited = false;
  }

  unfoldable pub push_tuple : Tuple → ChildImpl N → ChildImpl N
  push_tuple t c = record c { in_data = c.in_data ++ t ∷ [] }

  unfoldable pub push_tuples : List Tuple → ChildImpl N → ChildImpl N
  push_tuples [] c = c
  push_tuples (t ∷ ts) c = push_tuples ts (push_tuple t c)

  unfoldable pub process_tuple : CraneTuple → ChildImpl N → ChildImpl N
  process_tuple t = push_tuple (read_tuple t)

  unfoldable pub process_tuple_batch : List CraneTuple → ChildImpl N → ChildImpl N
  process_tuple_batch batch = push_tuples (map read_tuple batch)

  unfoldable pub configure_connections :
      List ConnectionGroup → ChildImpl N → ChildImpl N × SupervisorReplyType
  configure_connections groups c =
      (record c { connection_groups = map connect_group groups }, config_conns_reply)

  unfoldable pub start_processing : ChildImpl N → ChildImpl N × SupervisorReplyType
  start_processing c = (record c { started = true }, start_reply)

  unfoldable pub exit_child : ChildImpl N → ChildImpl N × SupervisorReplyType
  exit_child c = (record c { exited = true }, kill_reply)

  -- The handlers of the requests of the supervisor, with the reply.
  unfoldable pub process_request :
      SupervisorRequest → ChildImpl N → ChildImpl N × SupervisorReplyType
  process_request (config_conns groups) c =
      configure_connections
        (map
          (λ (g : GroupedConnections). record {
            child_name = g.child_name;
            grouping = g.grouping;
            addresses = g.addresses;
          })
          groups)
        c
  process_request start c = start_processing c
  process_request kill c = exit_child c

  -- `dataProcessThread`: a step of a bolt, and a round of a spout.
  unfoldable pub run_bolt : TopologyNode N → ChildImpl N → ChildImpl N
  run_bolt user c = elim c.running [
    | true ↦ elim c.processing [
      | [] ↦ record c { running = false }
      | t ∷ ts ↦
          let (node, pushed) = user.run_on_tuple c.node t in
          record c { processing = ts; node = node; out_data = c.out_data ++ pushed }
    ]
    | false ↦ elim c.in_data [
      | [] ↦ elim c.processing [ [] ↦ c | _ ∷ _ ↦ record c { running = true } ]
      | t ∷ ts ↦ record c { in_data = ts; processing = c.processing ++ t ∷ [] }
    ]
  ]

  unfoldable pub run_spout : TopologyNode N → ChildImpl N → ChildImpl N
  run_spout user c =
      let (node, t) = user.next_tuple c.node in
      record c { node = node; out_data = c.out_data ++ t ∷ [] }

  unfoldable pub process_step : TopologyNode N → ChildImpl N → ChildImpl N
  process_step user c = elim c.is_bolt [ true ↦ run_bolt user c | false ↦ run_spout user c ]

  -- `dataSendThread`: the messages of each group, where the step sends.
  unfoldable pub send_step :
      (ℕ → ℕ) → ChildImpl N → Option (ChildImpl N × List (List (ℕ × List CraneTuple)))
  send_step draws c = elim c.flushing [
    | true ↦ elim (send_groups draws c.sending c.connection_groups) [
      | none ↦ none
      | some sent ↦ some (record c { sending = []; flushing = false }, sent)
    ]
    | false ↦ elim c.out_data [
      | [] ↦ elim c.sending [ [] ↦ some (c, []) | _ ∷ _ ↦ some (record c { flushing = true }, []) ]
      | t ∷ ts ↦ some (record c { out_data = ts; sending = c.sending ++ t ∷ [] }, [])
    ]
  ]

-- ===== src/Crane/Wire.antt =====
-- The messages on the wire, and what the process that receives one does.
use cranesps.Base.{String, ◌≡◌, refl, ap, ◌∙◌, Bool, Option, none, some, List, [], ◌∷◌, map}
use cranesps.Nimbus.Assign.{GroupedAddresses}
use cranesps.Nimbus.Lifecycle
use cranesps.Nimbus.Lifecycle.{NimbusRequest}
use cranesps.Nimbus.Requests.{ClientReply}
use cranesps.Supervisor
use cranesps.Supervisor.{Supervisor, create_worker_id}
use cranesps.Supervisor.Messages.{is_bolt, configure_all, process}
use cranesps.Worker.Child
use cranesps.Worker.Child.{
  SupervisorRequest, ChildImpl, process_request, process_tuple, process_tuple_batch,
}
use cranesps.Crane.Messages.{message, nimbus_call, supervisor_call}
use cranesps.Crane.{WorkerConnections, CraneWrappedMessage}
use cranesps.Crane.Parser.{
  Call, on_submit, on_send, on_start, on_stop, on_kill, on_status, on_add_worker, on_start_worker,
  on_kill_worker, on_configure, on_add_worker_reply, on_start_worker_reply, on_kill_worker_reply,
  on_configure_reply, on_configure_child, on_start_child, on_kill_child, on_child_reply, on_tuple,
  on_tuple_batch, Outcome, calls, null_read, not_recognized, dispatch, ClientCall, client_dispatch,
}
use cranesps.Crane.Replies.{reply_message, client_call, client_dispatch-reply_message}

-- The encoding that protobuf generates, on the bytes of a socket.
pub record Codec (Bytes : Type 0) : Type 0 where
  pub serialize_to_array : CraneWrappedMessage → Bytes
  pub parse_from_array : Bytes → Option CraneWrappedMessage

-- `throws` is the exception for a buffer that is no message.
pub data Parsed : Type 0 where
  throws : Parsed
  parsed : Outcome Call → Parsed

module _ {Bytes : Type 0} (codec : Codec Bytes) where
  unfoldable pub parse : Bytes → Parsed
  parse buffer = elim (codec.parse_from_array buffer) [
    | none ↦ throws
    | some m ↦ parsed (dispatch m.type m.msg)
  ]

  unfoldable pub send : Call → Bytes
  send c = codec.serialize_to_array (message c)

-- The client's parser on the reply of Nimbus; `none` is the exception.
module _ {Bytes : Type 0} (codec : Codec Bytes) where
  unfoldable pub client_parse : Bytes → Option (Outcome ClientCall)
  client_parse buffer = elim (codec.parse_from_array buffer) [
    | none ↦ none
    | some m ↦ some (client_dispatch m.type m.msg)
  ]

  unfoldable pub send_reply_to_client : ClientReply → Bytes
  send_reply_to_client r = codec.serialize_to_array (reply_message r)

  client_parse-send :
      (r : ClientReply)
      → ((m : CraneWrappedMessage) → codec.parse_from_array (codec.serialize_to_array m) ≡ some m)
      → client_parse (send_reply_to_client r) ≡ some (calls (client_call r))
  unfolding client_parse send_reply_to_client
  client_parse-send r same =
      ap
        (λ (o : Option CraneWrappedMessage). elim o [
          | none ↦ none
          | some m ↦ some (client_dispatch m.type m.msg)
        ])
        (same (reply_message r))
      ∙ ap some (client_dispatch-reply_message r)

-- What a handler does to the workers of the node; the calls for Nimbus or a worker do nothing.
module _ (join : String → String → String) (find : String → String → Bool) where
  unfoldable pub configure_each : List WorkerConnections → Supervisor → Supervisor
  configure_each [] s = s
  configure_each (c ∷ conns) s = configure_each conns (
      Supervisor.configure_connections (create_worker_id join c.topo_id c.name) c.grouped_addresses
        s)

  unfoldable pub supervise : Call → Supervisor → Supervisor
  supervise (on_add_worker r) s =
      (Supervisor.add_worker (create_worker_id join r.topo_id r.name) (is_bolt join find r.run_name)
        r.instance_number s).0
  supervise (on_start_worker topo_id name) s =
      Supervisor.start_worker (create_worker_id join topo_id name) s
  supervise (on_kill_worker topo_id name) s =
      (Supervisor.kill_worker (create_worker_id join topo_id name) s).0
  supervise (on_configure conns) s = configure_each conns s
  supervise _ s = s

-- What the handler of a worker does; the calls for the other processes do nothing to it.
module _ {N : Type 0} where
  unfoldable pub work : Call → ChildImpl N → ChildImpl N
  work (on_configure_child groups) c = (process_request (Child.config_conns groups) c).0
  work on_start_child c = (process_request Child.start c).0
  work on_kill_child c = (process_request Child.kill c).0
  work (on_tuple t) c = process_tuple t c
  work (on_tuple_batch ts) c = process_tuple_batch ts c
  work _ c = c

-- One round of a receiving thread: the exception is caught; `none` where the process ends on a
-- null pointer.
abbrev pub round {ℓ} : {S : Type ℓ} → (Call → S → S) → Parsed → S → Option S
round handler throws s = some s
round handler (parsed (calls c)) s = some (handler c s)
round handler (parsed null_read) s = none
round handler (parsed not_recognized) s = some s

-- A batch of no tuple is lost, and the worker with it; every other message is handled.
abbrev pub arrives : Call → Outcome Call
arrives (on_tuple_batch []) = null_read
arrives c = calls c

dispatch-message : (c : Call) → dispatch (message c).type (message c).msg ≡ arrives c
unfolding dispatch message
dispatch-message (on_submit r) = refl
dispatch-message (on_send r) = refl
dispatch-message (on_start t) = refl
dispatch-message (on_stop t) = refl
dispatch-message (on_kill t) = refl
dispatch-message on_status = refl
dispatch-message (on_add_worker r) = refl
dispatch-message (on_start_worker t n) = refl
dispatch-message (on_kill_worker t n) = refl
dispatch-message (on_configure conns) = refl
dispatch-message (on_add_worker_reply r) = refl
dispatch-message on_start_worker_reply = refl
dispatch-message on_kill_worker_reply = refl
dispatch-message on_configure_reply = refl
dispatch-message (on_configure_child groups) = refl
dispatch-message on_start_child = refl
dispatch-message on_kill_child = refl
dispatch-message (on_child_reply type) = refl
dispatch-message (on_tuple t) = refl
dispatch-message (on_tuple_batch []) = refl
dispatch-message (on_tuple_batch (t ∷ ts)) = refl

configure_each-configure_all :
    (join : String → String → String) (find : String → String → Bool) (t : String)
    (conns : List (String × List GroupedAddresses)) (s : Supervisor)
    → configure_each join find
        (map
          (λ (c : String × List GroupedAddresses). record {
            topo_id = t;
            name = c.0;
            grouped_addresses = c.1;
          })
          conns)
        s
      ≡ configure_all join find t conns s
unfolding configure_each configure_all
configure_each-configure_all join find t [] s = refl
configure_each-configure_all join find t ((name, groups) ∷ conns) s =
    configure_each-configure_all join find t conns _

supervise-nimbus_call :
    (join : String → String → String) (find : String → String → Bool) (r : NimbusRequest)
    (s : Supervisor)
    → supervise join find (nimbus_call r) s ≡ process join find r s
unfolding supervise nimbus_call process
supervise-nimbus_call join find (Lifecycle.add_worker node t name run count) s = refl
supervise-nimbus_call join find (Lifecycle.config_conns node t conns) s =
    configure_each-configure_all join find t conns s
supervise-nimbus_call join find (Lifecycle.start_worker node t name) s = refl
supervise-nimbus_call join find (Lifecycle.kill_worker node t name) s = refl

work-supervisor_call :
    {N : Type 0} (r : SupervisorRequest) (c : ChildImpl N)
    → work (supervisor_call r) c ≡ (process_request r c).0
unfolding work supervisor_call
work-supervisor_call (Child.config_conns groups) c = refl
work-supervisor_call Child.start c = refl
work-supervisor_call Child.kill c = refl

parse-send :
    {Bytes : Type 0} (codec : Codec Bytes) (x : Call)
    → ((m : CraneWrappedMessage) → codec.parse_from_array (codec.serialize_to_array m) ≡ some m)
    → parse codec (send codec x) ≡ parsed (arrives x)
unfolding parse send
parse-send codec x same =
    ap
      (λ (o : Option CraneWrappedMessage). elim o [
        | none ↦ throws
        | some m ↦ parsed (dispatch m.type m.msg)
      ])
      (same (message x))
    ∙ ap parsed (dispatch-message x)

nimbus_arrives : (r : NimbusRequest) → arrives (nimbus_call r) ≡ calls (nimbus_call r)
unfolding nimbus_call
nimbus_arrives (Lifecycle.add_worker node t name run count) = refl
nimbus_arrives (Lifecycle.config_conns node t conns) = refl
nimbus_arrives (Lifecycle.start_worker node t name) = refl
nimbus_arrives (Lifecycle.kill_worker node t name) = refl

supervisor_arrives :
    (q : SupervisorRequest) → arrives (supervisor_call q) ≡ calls (supervisor_call q)
unfolding supervisor_call
supervisor_arrives (Child.config_conns groups) = refl
supervisor_arrives Child.start = refl
supervisor_arrives Child.kill = refl

-- Through an encoding that is read back as it was written: every message that the client, Nimbus, a
-- supervisor or a worker makes for a call gives that call, with all that it holds, at the parser of
-- the daemon, and no handler reads a null pointer, but for a batch of no tuple; so a request of
-- Nimbus does to the supervisor, and a request of the supervisor to the worker, what the model of
-- their handlers says. Every reply of Nimbus to the client is handed by the parser of the client to
-- its handler there, with what the handler reads.
pub messages_arrive :
    {Bytes N : Type 0} (codec : Codec Bytes) (join : String → String → String)
    (find : String → String → Bool) (call : Call) (r : NimbusRequest) (s : Supervisor)
    (q : SupervisorRequest) (c : ChildImpl N) (reply : ClientReply)
    → ((m : CraneWrappedMessage) → codec.parse_from_array (codec.serialize_to_array m) ≡ some m)
    → (parse codec (send codec call) ≡ parsed (arrives call))
      × (round (supervise join find) (parse codec (send codec (nimbus_call r))) s
          ≡ some (process join find r s))
      × (round work (parse codec (send codec (supervisor_call q))) c ≡ some (process_request q c).0)
      × (client_parse codec (send_reply_to_client codec reply) ≡ some (calls (client_call reply)))
messages_arrive codec join find call r s q c reply same =
    let all = λ (x : Call). parse-send codec x same in
    (
      all call,
      ap (λ p. round (supervise join find) p s) (all (nimbus_call r) ∙ ap parsed (nimbus_arrives r))
          ∙ ap some (supervise-nimbus_call join find r s),
      ap (λ p. round work p c) (all (supervisor_call q) ∙ ap parsed (supervisor_arrives q))
          ∙ ap some (work-supervisor_call q c),
      client_parse-send codec reply same,
    )

-- ===== src/Crane/Messages.antt =====
-- How the messages are filled in. STATUS, the replies without content, START and KILL are sent with
-- their type alone.
use cranesps.Base.{String, List, [], ◌∷◌, map}
use cranesps.Topology.Request.{SubmitRequest}
use cranesps.Client.{SendRequest}
use cranesps.Nimbus.Assign.{GroupedAddresses}
use cranesps.Nimbus.Lifecycle
use cranesps.Nimbus.Lifecycle.{NimbusRequest}
use cranesps.Worker.Send.{CraneTuple}
use cranesps.Worker.Child
use cranesps.Worker.Child.{SupervisorRequest, GroupedConnections, SupervisorReplyType}
use cranesps.Crane.{
  ClientType, ClientRequestBody, NimbusType, WorkerConnections, AddWorkerRequest, NimbusRequestBody,
  AddWorkerReply, NimbusReplyBody, SupervisorType, SupervisorRequestBody, CraneWrappedMessage,
  submit_type, start_type, stop_type, kill_type, send_type, status_type, no_client_request,
  submit_request, start_request, stop_request, kill_request, send_request, add_worker_type,
  start_worker_type, kill_worker_type, config_conns_type, add_worker_request, start_worker_request,
  kill_worker_request, configure_connections_request, no_nimbus_reply, add_worker_reply,
  config_conns_request_type, start_request_type, kill_request_type, no_supervisor_request,
  configure_child_request, client_req, nimbus_req, nimbus_rep, supervisor_req, supervisor_rep,
  tuple, tuple_batch, no_message, crane_client_request, crane_nimbus_request, crane_nimbus_reply,
  crane_supervisor_request, crane_supervisor_reply, crane_tuple, crane_tuple_batch,
}
use cranesps.Crane.Parser.{
  Call, on_submit, on_send, on_start, on_stop, on_kill, on_status, on_add_worker, on_start_worker,
  on_kill_worker, on_configure, on_add_worker_reply, on_start_worker_reply, on_kill_worker_reply,
  on_configure_reply, on_configure_child, on_start_child, on_kill_child, on_child_reply, on_tuple,
  on_tuple_batch,
}

-- client/src/CraneClient.cpp.
abbrev client : ClientType → ClientRequestBody → CraneWrappedMessage
client type msg = record {
  type = client_req;
  msg = crane_client_request (record { type = type; msg = msg });
}

abbrev client_submit : SubmitRequest → CraneWrappedMessage
client_submit r = client submit_type (submit_request r)

abbrev client_start : String → CraneWrappedMessage
client_start topo_name = client start_type (start_request topo_name)

abbrev client_stop : String → CraneWrappedMessage
client_stop topo_name = client stop_type (stop_request topo_name)

abbrev client_kill : String → CraneWrappedMessage
client_kill topo_name = client kill_type (kill_request topo_name)

abbrev client_status : CraneWrappedMessage
client_status = client status_type no_client_request

abbrev client_send : SendRequest → CraneWrappedMessage
client_send r = client send_type (send_request r)

-- daemon/src/nimbus/Nimbus.cpp.
abbrev nimbus : NimbusType → NimbusRequestBody → CraneWrappedMessage
nimbus type msg = record {
  type = nimbus_req;
  msg = crane_nimbus_request (record { type = type; msg = msg });
}

abbrev nimbus_add_worker : AddWorkerRequest → CraneWrappedMessage
nimbus_add_worker r = nimbus add_worker_type (add_worker_request r)

abbrev nimbus_configure : List WorkerConnections → CraneWrappedMessage
nimbus_configure conns = nimbus config_conns_type (configure_connections_request conns)

abbrev nimbus_start_worker : String → String → CraneWrappedMessage
nimbus_start_worker topo_id name = nimbus start_worker_type (start_worker_request topo_id name)

abbrev nimbus_kill_worker : String → String → CraneWrappedMessage
nimbus_kill_worker topo_id name = nimbus kill_worker_type (kill_worker_request topo_id name)

-- daemon/src/supervisor/Supervisor.cpp.
abbrev to_nimbus : NimbusType → NimbusReplyBody → CraneWrappedMessage
to_nimbus type msg = record {
  type = nimbus_rep;
  msg = crane_nimbus_reply (record { type = type; msg = msg });
}

abbrev create_add_worker_reply_message : AddWorkerReply → CraneWrappedMessage
create_add_worker_reply_message r = to_nimbus add_worker_type (add_worker_reply r)

abbrev create_start_reply_message : CraneWrappedMessage
create_start_reply_message = to_nimbus start_worker_type no_nimbus_reply

abbrev create_kill_reply_message : CraneWrappedMessage
create_kill_reply_message = to_nimbus kill_worker_type no_nimbus_reply

abbrev create_configure_connections_reply_message : CraneWrappedMessage
create_configure_connections_reply_message = to_nimbus config_conns_type no_nimbus_reply

-- daemon/src/worker/Worker.cpp.
abbrev to_worker : SupervisorType → SupervisorRequestBody → CraneWrappedMessage
to_worker type msg = record {
  type = supervisor_req;
  msg = crane_supervisor_request (record { type = type; msg = msg });
}

abbrev configure_message : List GroupedConnections → CraneWrappedMessage
configure_message groups = to_worker config_conns_request_type (configure_child_request groups)

abbrev start_message : CraneWrappedMessage
start_message = to_worker start_request_type no_supervisor_request

abbrev kill_message : CraneWrappedMessage
kill_message = to_worker kill_request_type no_supervisor_request

abbrev create_reply_message : SupervisorReplyType → CraneWrappedMessage
create_reply_message type = record {
  type = supervisor_rep;
  msg = crane_supervisor_reply (record { type = type });
}

abbrev tuple_message : CraneTuple → CraneWrappedMessage
tuple_message t = record { type = tuple; msg = crane_tuple t }

-- A batch of no tuple has a type and nothing else, since `mutable_cranetuplebatch` is called in the
-- loop.
abbrev tuple_batch_message : List CraneTuple → CraneWrappedMessage
tuple_batch_message [] = record { type = tuple_batch; msg = no_message }
tuple_batch_message (t ∷ ts) = record { type = tuple_batch; msg = crane_tuple_batch (t ∷ ts) }

-- The message that is made for each call.
unfoldable pub message : Call → CraneWrappedMessage
message (on_submit r) = client_submit r
message (on_send r) = client_send r
message (on_start topo_name) = client_start topo_name
message (on_stop topo_name) = client_stop topo_name
message (on_kill topo_name) = client_kill topo_name
message on_status = client_status
message (on_add_worker r) = nimbus_add_worker r
message (on_start_worker topo_id name) = nimbus_start_worker topo_id name
message (on_kill_worker topo_id name) = nimbus_kill_worker topo_id name
message (on_configure conns) = nimbus_configure conns
message (on_add_worker_reply r) = create_add_worker_reply_message r
message on_start_worker_reply = create_start_reply_message
message on_kill_worker_reply = create_kill_reply_message
message on_configure_reply = create_configure_connections_reply_message
message (on_configure_child groups) = configure_message groups
message on_start_child = start_message
message on_kill_child = kill_message
message (on_child_reply type) = create_reply_message type
message (on_tuple t) = tuple_message t
message (on_tuple_batch ts) = tuple_batch_message ts

-- The requests of Nimbus as calls of the supervisor that they are sent to.
unfoldable pub nimbus_call : NimbusRequest → Call
nimbus_call (Lifecycle.add_worker supervisor topo_id name run_name count) =
    on_add_worker
      (record { topo_id = topo_id; run_name = run_name; name = name; instance_number = count })
nimbus_call (Lifecycle.config_conns supervisor topo_id conns) = on_configure (
    map
      (λ (c : String × List GroupedAddresses). record {
        topo_id = topo_id;
        name = c.0;
        grouped_addresses = c.1;
      })
      conns)
nimbus_call (Lifecycle.start_worker supervisor topo_id name) = on_start_worker topo_id name
nimbus_call (Lifecycle.kill_worker supervisor topo_id name) = on_kill_worker topo_id name

-- The requests of a supervisor as calls of the worker.
unfoldable pub supervisor_call : SupervisorRequest → Call
supervisor_call (Child.config_conns groups) = on_configure_child groups
supervisor_call Child.start = on_start_child
supervisor_call Child.kill = on_kill_child

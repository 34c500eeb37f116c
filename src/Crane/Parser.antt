-- ===== src/Crane/Parser.antt =====
-- daemon/src/message/CraneMessageParser.cpp and client/src/message/MessageParser.cpp: which handler a
-- message goes to, and with what. A handler gets a null pointer where the message holds nothing for
-- its type; only some handlers read it.
use cranesps.Base.{String, Bool, List}
use cranesps.Topology.Request.{SubmitRequest}
use cranesps.Client.{SendRequest}
use cranesps.Nimbus.Requests.{WorkerStatus}
use cranesps.Worker.Send.{CraneTuple}
use cranesps.Worker.Child.{GroupedConnections, SupervisorReplyType}
use cranesps.Crane.{
  ClientType, ClientRequestBody, ClientReplyBody, NimbusType, WorkerConnections, AddWorkerRequest,
  NimbusRequestBody, AddWorkerReply, NimbusReplyBody, SupervisorType, SupervisorRequestBody,
  CraneType, CraneBody, submit_type, start_type, stop_type, kill_type, send_type, status_type,
  submit_request, start_request, stop_request, kill_request, send_request, submit_reply, send_reply,
  status_reply, add_worker_type, start_worker_type, kill_worker_type, config_conns_type,
  add_worker_request, start_worker_request, kill_worker_request, configure_connections_request,
  add_worker_reply, config_conns_request_type, start_request_type, kill_request_type,
  configure_child_request, client_req, client_rep, nimbus_req, nimbus_rep, supervisor_req,
  supervisor_rep, tuple, tuple_batch, crane_client_request, crane_client_reply,
  crane_nimbus_request, crane_nimbus_reply, crane_supervisor_request, crane_supervisor_reply,
  crane_tuple, crane_tuple_batch,
}

-- The overloads of `process`, with what their pointer holds; those that never read it have no
-- argument.
pub data Call : Type 0 where
  on_submit : SubmitRequest → Call
  on_send : SendRequest → Call
  on_start on_stop on_kill : String → Call
  on_status : Call
  on_add_worker : AddWorkerRequest → Call
  on_start_worker on_kill_worker : String → String → Call
  on_configure : List WorkerConnections → Call
  on_add_worker_reply : AddWorkerReply → Call
  on_start_worker_reply on_kill_worker_reply on_configure_reply : Call
  on_configure_child : List GroupedConnections → Call
  on_start_child on_kill_child : Call
  on_child_reply : SupervisorReplyType → Call
  on_tuple : CraneTuple → Call
  on_tuple_batch : List CraneTuple → Call

pub data ClientCall : Type 0 where
  on_submit_reply : String → Bool → ClientCall
  on_send_reply : String → Bool → ClientCall
  on_start_reply on_stop_reply on_kill_reply : ClientCall
  on_status_reply : List (String × String × List WorkerStatus) → ClientCall

-- What a parser does with a message: the call, a read through a null pointer, or a line in the log.
pub data Outcome {ℓ} (A : Type ℓ) : Type ℓ where
  calls : A → Outcome A
  null_read not_recognized : Outcome A

abbrev client_request : ClientType → ClientRequestBody → Outcome Call
client_request submit_type (submit_request r) = calls (on_submit r)
client_request submit_type _ = null_read
client_request send_type (send_request r) = calls (on_send r)
client_request send_type _ = null_read
client_request start_type (start_request topo_name) = calls (on_start topo_name)
client_request start_type _ = null_read
client_request stop_type (stop_request topo_name) = calls (on_stop topo_name)
client_request stop_type _ = null_read
client_request kill_type (kill_request topo_name) = calls (on_kill topo_name)
client_request kill_type _ = null_read
client_request status_type _ = calls on_status

abbrev nimbus_request : NimbusType → NimbusRequestBody → Outcome Call
nimbus_request add_worker_type (add_worker_request r) = calls (on_add_worker r)
nimbus_request add_worker_type _ = null_read
nimbus_request start_worker_type (start_worker_request topo_id name) =
    calls (on_start_worker topo_id name)
nimbus_request start_worker_type _ = null_read
nimbus_request kill_worker_type (kill_worker_request topo_id name) =
    calls (on_kill_worker topo_id name)
nimbus_request kill_worker_type _ = null_read
nimbus_request config_conns_type (configure_connections_request conns) = calls (on_configure conns)
nimbus_request config_conns_type _ = null_read

abbrev nimbus_reply : NimbusType → NimbusReplyBody → Outcome Call
nimbus_reply add_worker_type (add_worker_reply r) = calls (on_add_worker_reply r)
nimbus_reply add_worker_type _ = null_read
nimbus_reply start_worker_type _ = calls on_start_worker_reply
nimbus_reply kill_worker_type _ = calls on_kill_worker_reply
nimbus_reply config_conns_type _ = calls on_configure_reply

abbrev supervisor_request : SupervisorType → SupervisorRequestBody → Outcome Call
supervisor_request config_conns_request_type (configure_child_request groups) =
    calls (on_configure_child groups)
supervisor_request config_conns_request_type _ = null_read
supervisor_request start_request_type _ = calls on_start_child
supervisor_request kill_request_type _ = calls on_kill_child

-- `CraneMessageParser::parse` after the decoding; the parser itself reads the type of what it
-- releases.
unfoldable pub dispatch : CraneType → CraneBody → Outcome Call
dispatch client_req (crane_client_request m) = client_request m.type m.msg
dispatch client_req _ = null_read
dispatch nimbus_req (crane_nimbus_request m) = nimbus_request m.type m.msg
dispatch nimbus_req _ = null_read
dispatch nimbus_rep (crane_nimbus_reply m) = nimbus_reply m.type m.msg
dispatch nimbus_rep _ = null_read
dispatch supervisor_req (crane_supervisor_request m) = supervisor_request m.type m.msg
dispatch supervisor_req _ = null_read
dispatch supervisor_rep (crane_supervisor_reply m) = calls (on_child_reply m.type)
dispatch supervisor_rep _ = null_read
dispatch tuple (crane_tuple t) = calls (on_tuple t)
dispatch tuple _ = null_read
dispatch tuple_batch (crane_tuple_batch ts) = calls (on_tuple_batch ts)
dispatch tuple_batch _ = null_read
dispatch client_rep _ = not_recognized

abbrev client_reply : ClientType → ClientReplyBody → Outcome ClientCall
client_reply submit_type (submit_reply topo_name approval) =
    calls (on_submit_reply topo_name approval)
client_reply submit_type _ = null_read
client_reply send_type (send_reply topo_name md5_match) = calls (on_send_reply topo_name md5_match)
client_reply send_type _ = null_read
client_reply start_type _ = calls on_start_reply
client_reply stop_type _ = calls on_stop_reply
client_reply kill_type _ = calls on_kill_reply
client_reply status_type (status_reply topologies) = calls (on_status_reply topologies)
client_reply status_type _ = null_read

-- The parser of the client.
unfoldable pub client_dispatch : CraneType → CraneBody → Outcome ClientCall
client_dispatch client_rep (crane_client_reply m) = client_reply m.type m.msg
client_dispatch client_rep _ = null_read
client_dispatch client_req _ = not_recognized
client_dispatch nimbus_req _ = not_recognized
client_dispatch nimbus_rep _ = not_recognized
client_dispatch supervisor_req _ = not_recognized
client_dispatch supervisor_rep _ = not_recognized
client_dispatch tuple _ = not_recognized
client_dispatch tuple_batch _ = not_recognized

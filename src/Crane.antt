-- ===== src/Crane.antt =====
-- protocol/crane.proto: the messages between the client, Nimbus, the supervisors and the workers.
-- Each is a type and a `oneof`, which may hold nothing, or what belongs to another type.
pub mod Parser
pub mod Messages
pub mod Replies
pub mod Wire
use cranesps.Base.{ℕ, String, Bool, Option, none, some, List}
use cranesps.Topology.Request.{SubmitRequest}
use cranesps.Client.{SendRequest}
use cranesps.Nimbus.Assign.{GroupedAddresses}
use cranesps.Nimbus.Requests.{WorkerStatus}
use cranesps.Worker.Send.{CraneTuple}
use cranesps.Worker.Child.{GroupedConnections, SupervisorReplyType}

pub data ClientType : Type 0 where
  submit_type start_type stop_type kill_type send_type status_type : ClientType

pub data ClientRequestBody : Type 0 where
  no_client_request status_request : ClientRequestBody
  submit_request : SubmitRequest → ClientRequestBody
  start_request stop_request kill_request : String → ClientRequestBody
  send_request : SendRequest → ClientRequestBody

pub record CraneClientRequest : Type 0 where
  pub type : ClientType
  pub msg : ClientRequestBody

pub data ClientReplyBody : Type 0 where
  no_client_reply : ClientReplyBody
  submit_reply start_reply stop_reply kill_reply send_reply : String → Bool → ClientReplyBody
  status_reply : List (String × String × List WorkerStatus) → ClientReplyBody

pub record CraneClientReply : Type 0 where
  pub type : ClientType
  pub msg : ClientReplyBody

-- The types of CraneNimbusRequest and CraneNimbusReply.
pub data NimbusType : Type 0 where
  add_worker_type start_worker_type kill_worker_type config_conns_type : NimbusType

-- `WorkerConfigureConnectionsRequest`.
pub record WorkerConnections : Type 0 where
  pub topo_id : String
  pub name : String
  pub grouped_addresses : List GroupedAddresses

pub record AddWorkerRequest : Type 0 where
  pub topo_id : String
  pub run_name : String
  pub name : String
  pub instance_number : ℕ

pub data NimbusRequestBody : Type 0 where
  no_nimbus_request : NimbusRequestBody
  add_worker_request : AddWorkerRequest → NimbusRequestBody
  start_worker_request kill_worker_request : String → String → NimbusRequestBody
  configure_connections_request : List WorkerConnections → NimbusRequestBody

pub record CraneNimbusRequest : Type 0 where
  pub type : NimbusType
  pub msg : NimbusRequestBody

pub record AddWorkerReply : Type 0 where
  pub supervisor_id : String
  pub topo_id : String
  pub name : String
  pub ports : List ℕ

pub data NimbusReplyBody : Type 0 where
  no_nimbus_reply start_worker_reply kill_worker_reply configure_connections_reply : NimbusReplyBody
  add_worker_reply : AddWorkerReply → NimbusReplyBody

pub record CraneNimbusReply : Type 0 where
  pub type : NimbusType
  pub msg : NimbusReplyBody

-- The types of CraneSupervisorRequest.
pub data SupervisorType : Type 0 where
  config_conns_request_type start_request_type kill_request_type : SupervisorType

pub data SupervisorRequestBody : Type 0 where
  no_supervisor_request start_child_request kill_child_request : SupervisorRequestBody
  configure_child_request : List GroupedConnections → SupervisorRequestBody

pub record CraneSupervisorRequest : Type 0 where
  pub type : SupervisorType
  pub msg : SupervisorRequestBody

-- The replies of a worker have no content.
pub record CraneSupervisorReply : Type 0 where
  pub type : SupervisorReplyType

pub data CraneType : Type 0 where
  client_req client_rep nimbus_req nimbus_rep supervisor_req supervisor_rep tuple tuple_batch :
      CraneType

pub data CraneBody : Type 0 where
  no_message : CraneBody
  crane_client_request : CraneClientRequest → CraneBody
  crane_client_reply : CraneClientReply → CraneBody
  crane_nimbus_request : CraneNimbusRequest → CraneBody
  crane_nimbus_reply : CraneNimbusReply → CraneBody
  crane_supervisor_request : CraneSupervisorRequest → CraneBody
  crane_supervisor_reply : CraneSupervisorReply → CraneBody
  crane_tuple : CraneTuple → CraneBody
  crane_tuple_batch : List CraneTuple → CraneBody

pub record CraneWrappedMessage : Type 0 where
  pub type : CraneType
  pub msg : CraneBody

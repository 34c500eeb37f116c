-- ===== src/Worker/Parent.antt =====
-- `ParentImpl`: the supervisor's side of a worker, which turns each call into a request to the child.
use cranesps.Base.{◌≡◌, refl, ap, List, map, map_cancel}
use cranesps.Worker.Child.{
  ConnectionGroup, SupervisorRequest, config_conns, start, kill, SupervisorReplyType, ChildImpl,
  configure_connections, start_processing, exit_child, process_request,
}

unfoldable pub create_configure_connections_message : List ConnectionGroup → SupervisorRequest
create_configure_connections_message groups = config_conns (
    map
      (λ (g : ConnectionGroup). record {
        child_name = g.child_name;
        grouping = g.grouping;
        addresses = g.addresses;
      })
      groups)

unfoldable pub create_start_message : SupervisorRequest
create_start_message = start

unfoldable pub create_kill_message : SupervisorRequest
create_kill_message = kill

-- The calls of the supervisor.
pub data Call : Type 0 where
  call_configure : List ConnectionGroup → Call
  call_start call_kill : Call

unfoldable pub request_of : Call → SupervisorRequest
request_of (call_configure groups) = create_configure_connections_message groups
request_of call_start = create_start_message
request_of call_kill = create_kill_message

module _ {N : Type 0} where
  -- The calls as methods of the child itself.
  unfoldable pub direct : Call → ChildImpl N → ChildImpl N × SupervisorReplyType
  direct (call_configure groups) c = configure_connections groups c
  direct call_start c = start_processing c
  direct call_kill c = exit_child c

  -- A call through the parent, its message and the handler of the child does what the same method
  -- of the child does when it is called with the same arguments, with the same reply.
  pub request_exact :
      (call : Call) (c : ChildImpl N) → process_request (request_of call) c ≡ direct call c
  unfolding process_request request_of direct create_configure_connections_message
      create_start_message create_kill_message
  request_exact (call_configure groups) c =
      ap (λ gs. configure_connections gs c) (map_cancel _ _ (λ (g : ConnectionGroup). refl) groups)
  request_exact call_start c = refl
  request_exact call_kill c = refl

-- ===== src/DMember/Types.antt =====
-- The state of the service (`DMember::Impl`), the heartbeat of protocol/dmember.proto, and
-- `SystemHelper::makeAddr`, whose text tcp://ip:port is kept as the pair of its parts.
use cranesps.Base.{ℕ, String, Bool, List}
use cranesps.Member.{Member}

pub record Address : Type 0 where
  pub ip : String
  pub port : ℕ

abbrev pub make_addr : String → ℕ → Address
make_addr ip port = record { ip = ip; port = port }

abbrev pub MemberMap : Type 0
MemberMap = List (String × Member)

pub record DMember : Type 0 where
  pub id : String
  pub join_time : ℕ
  pub member_map : MemberMap
  pub members_queue : List MemberMap
  pub connections : List Address  -- what `inSocket` is connected to
  pub update_on_next_heartbeat : Bool
  pub is_stopped : Bool
  pub sender_finished : Bool

-- daemon/src/event: what the listeners are told.
pub data Event : Type 0 where
  node_fail : String → Event
  leader_elected : String → Event

pub record MemberEntry : Type 0 where
  pub id : String
  pub count : ℕ
  pub timestamp : ℕ
  pub leaving : Bool

pub record HeartBeat : Type 0 where
  pub member_list : List MemberEntry
  pub update_connection : Bool

abbrev pub ping_port : ℕ
ping_port = 9879

abbrev pub heartbeat_port : ℕ
heartbeat_port = 9878

abbrev pub introducer_address : String
introducer_address = "fa15-cs425-g10-01.cs.illinois.edu"

-- ===== src/Introducer/Wire.antt =====
-- protocol/dmember.proto, the messages that daemon/src/DMember.cpp and
-- daemon/src/introducer/Introducer.cpp fill in, daemon/src/message/MessageParser.cpp, and the
-- handlers of daemon/src/message/MessageHandler.cpp on a process, which has both components.
use mathlib.Core.Option
use cranesps.Base.{ℕ, String, ◌≡◌, refl, Option, none, some, List, [], ◌∷◌}
use cranesps.DMember.Types.{DMember, HeartBeat}
use cranesps.DMember.Heartbeat.{PingAck, reply_ping_request, update_join_time}
use cranesps.DMember.Messages.{process_heartbeat}
use cranesps.Introducer.{Introducer, member_of, update_member, process_join_request}

pub data MessageType : Type 0 where
  heartbeat_type ping_req ping_ack_type join_req join_ack_type : MessageType

pub data Body : Type 0 where
  not_set ping_request : Body
  heart_beat : HeartBeat → Body
  ping_ack : PingAck → Body
  join_request : String → Body
  join_ack : ℕ → Body

pub record WrappedMessage : Type 0 where
  pub type : MessageType
  pub msg : Body

-- The overloads of `process`, with what their pointer holds; that of a ping is not read.
pub data Call : Type 0 where
  on_heartbeat : HeartBeat → Call
  on_ping_request : Call
  on_ping_ack : PingAck → Call
  on_join_request : String → Call
  on_join_ack : ℕ → Call

-- `MessageParser::parse` after the decoding; `none` where a handler reads a null pointer.
unfoldable pub dispatch : MessageType → Body → Option Call
dispatch ping_ack_type (ping_ack a) = some (on_ping_ack a)
dispatch ping_ack_type _ = none
dispatch join_req (join_request id) = some (on_join_request id)
dispatch join_req _ = none
dispatch heartbeat_type (heart_beat h) = some (on_heartbeat h)
dispatch heartbeat_type _ = none
dispatch join_ack_type (join_ack time) = some (on_join_ack time)
dispatch join_ack_type _ = none
dispatch ping_req _ = some on_ping_request

-- How each message is filled in before it is sent: a ping is its type alone.
unfoldable pub message : Call → WrappedMessage
message (on_heartbeat h) = record { type = heartbeat_type; msg = heart_beat h }
message on_ping_request = record { type = ping_req; msg = not_set }
message (on_ping_ack a) = record { type = ping_ack_type; msg = ping_ack a }
message (on_join_request id) = record { type = join_req; msg = join_request id }
message (on_join_ack time) = record { type = join_ack_type; msg = join_ack time }

pub record Peer : Type 0 where
  pub service : DMember
  pub introducer : Introducer

pub record Handled : Type 0 where
  pub peer : Peer
  pub reply : Option Call

-- The handlers, at a reading of the clock; a join also takes the answers to the pings. `none` is
-- the null pointer that the answer to a ping reads on a node without a record of itself.
unfoldable pub handle : ℕ → List (PingAck × ℕ) → Call → Peer → Option Handled
handle now acks (on_heartbeat h) p =
    some (record { peer = record p { service = process_heartbeat h p.service }; reply = none })
handle now acks on_ping_request p =
    Option.map (λ a. record { peer = p; reply = some (on_ping_ack a) })
      (reply_ping_request p.service)
handle now acks (on_ping_ack a) p = some (record {
  peer = record p {
    introducer = record p.introducer {
      member_map = update_member (member_of a now) p.introducer.member_map;
    };
  };
  reply = none;
})
handle now acks (on_join_request id) p =
    let (states, time) = process_join_request now acks id p.introducer p.service in
    some (record {
      peer = record { service = states.1; introducer = states.0 };
      reply = some (on_join_ack time);
    })
handle now acks (on_join_ack time) p =
    some (record { peer = record p { service = update_join_time time p.service }; reply = none })

-- The encoding that protobuf generates, on the bytes of a socket.
pub record Codec (Bytes : Type 0) : Type 0 where
  pub serialize_to_array : WrappedMessage → Bytes
  pub parse_from_array : Bytes → Option WrappedMessage

module _ {Bytes : Type 0} (codec : Codec Bytes) where
  unfoldable pub send : Call → Bytes
  send c = codec.serialize_to_array (message c)

  -- What a receiving thread does with a buffer; `none` where nothing is handled: the exception of a
  -- buffer that is no message is caught, and at a null pointer the process ends.
  unfoldable pub receive : ℕ → List (PingAck × ℕ) → Bytes → Peer → Option Handled
  receive now acks buffer p = elim (codec.parse_from_array buffer) [
    | none ↦ none
    | some m ↦ elim (dispatch m.type m.msg) [ none ↦ none | some c ↦ handle now acks c p ]
  ]

  -- The reply to a request, as bytes.
  abbrev pub reply_bytes : Option Handled → Option Bytes
  reply_bytes none = none
  reply_bytes (some h) = Option.map send h.reply

  abbrev pub ack_in : Bytes → Option PingAck
  ack_in buffer = elim (codec.parse_from_array buffer) [
    | none ↦ none
    | some m ↦ elim (dispatch m.type m.msg) [
      | none ↦ none
      | some c ↦ elim c [
        | on_heartbeat h ↦ none
        | on_ping_request ↦ none
        | on_ping_ack a ↦ some a
        | on_join_request id ↦ none
        | on_join_ack time ↦ none
      ]
    ]
  ]

  -- `checkAvailabilityThread` for one host, with the answer that it gets in time.
  unfoldable pub ping : (String → Option Peer) → String → Option PingAck
  ping peers host = elim (peers host) [
    | none ↦ none
    | some p ↦ elim (reply_bytes (receive 0 [] (send on_ping_request) p)) [
      | none ↦ none
      | some reply ↦ ack_in reply
    ]
  ]

  -- The answers, in the order in which the threads handle them, with the readings of the clock.
  unfoldable pub pings : (String → Option Peer) → (String → ℕ) → List String → List (PingAck × ℕ)
  pings peers clock [] = []
  pings peers clock (host ∷ hosts) =
      let rest = pings peers clock hosts in
      elim (ping peers host) [ none ↦ rest | some a ↦ (a, clock host) ∷ rest ]

  -- `joinGroup`: the request of a node to the introducer's, which pings the hosts, and its reply.
  unfoldable pub join_group :
      ℕ → (String → Option Peer) → (String → ℕ) → List String → Peer → Peer → Option (Peer × Peer)
  join_group now peers clock hosts p i =
      elim (receive now (pings peers clock hosts) (send (on_join_request p.service.id)) i) [
        | none ↦ none
        | some h ↦ elim h.reply [
          | none ↦ none
          | some reply ↦ elim (receive now [] (send reply) p) [
            | none ↦ none
            | some back ↦ some (back.peer, h.peer)
          ]
        ]
      ]

pub dispatch-message : (c : Call) → dispatch (message c).type (message c).msg ≡ some c
unfolding dispatch message
dispatch-message (on_heartbeat h) = refl
dispatch-message on_ping_request = refl
dispatch-message (on_ping_ack a) = refl
dispatch-message (on_join_request id) = refl
dispatch-message (on_join_ack time) = refl

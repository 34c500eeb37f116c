-- ===== src/Election/Wire.antt =====
-- protocol/election.proto, the messages that daemon/src/election/Candidate.cpp makes, and
-- daemon/src/message/ElectionMessageParser.cpp, for the encoding that protobuf generates. A message
-- is a type and a `oneof`; most messages are sent with their type alone, and the handler gets a
-- null pointer, which only the handler of NEW_LEADER reads.
use cranesps.Base.{String, ◌≡◌, false, Option, none, some, [], arith}
use cranesps.Election.Node.{
  Candidate, ElectionMessage, election_start, ok_msg, elect_confirm, new_leader, Outcome, process,
}

pub data MessageType : Type 0 where
  election_start_type ok_msg_type new_leader_type elect_confirm_type : MessageType

pub data Body : Type 0 where
  not_set election_start_body ok_message_body election_confirm_body : Body
  new_leader_body : String → Body

pub record WrappedMessage : Type 0 where
  pub type : MessageType
  pub msg : Body

-- How each message is filled in before it is sent.
unfoldable pub wrap : ElectionMessage → WrappedMessage
wrap election_start = record { type = election_start_type; msg = not_set }
wrap ok_msg = record { type = ok_msg_type; msg = not_set }
wrap (new_leader id) = record { type = new_leader_type; msg = new_leader_body id }
wrap elect_confirm = record { type = elect_confirm_type; msg = not_set }

-- `release_newleader`: a null pointer where the `oneof` holds something else.
abbrev pub release_newleader : Body → Option String
release_newleader (new_leader_body id) = some id
release_newleader not_set = none
release_newleader election_start_body = none
release_newleader ok_message_body = none
release_newleader election_confirm_body = none

-- The call of a handler; `none` for the handler of NEW_LEADER on a null pointer.
unfoldable pub dispatch : WrappedMessage → Option ElectionMessage
dispatch m = elim m.type [
  | election_start_type ↦ some election_start
  | ok_msg_type ↦ some ok_msg
  | new_leader_type ↦ elim (release_newleader m.msg) [
    | none ↦ none
    | some id ↦ some (new_leader id)
  ]
  | elect_confirm_type ↦ some elect_confirm
]

-- The encoding of protobuf on the bytes of a socket.
pub record Codec (Bytes : Type 0) : Type 0 where
  pub serialize_to_array : WrappedMessage → Bytes
  pub parse_from_array : Bytes → Option WrappedMessage

pub data Parsed : Type 0 where
  cannot_parse null_read : Parsed
  handles : ElectionMessage → Parsed

module _ {Bytes : Type 0} (codec : Codec Bytes) where
  unfoldable pub parse : Bytes → Parsed
  parse buffer = elim (codec.parse_from_array buffer) [
    | none ↦ cannot_parse
    | some msg ↦ elim (dispatch msg) [ none ↦ null_read | some m ↦ handles m ]
  ]

  -- One round of `serviceThread`, and of a sending thread on its reply: the exception of a buffer
  -- that is no message is caught; `none` where the process ends on a null pointer.
  unfoldable pub receive : Bytes → Candidate → Option Outcome
  receive buffer c = elim (parse buffer) [
    | cannot_parse ↦ some (record { state = c; reply = []; starts = false; events = [] })
    | null_read ↦ none
    | handles m ↦ some (process m c)
  ]

  unfoldable pub send : ElectionMessage → Bytes
  send m = codec.serialize_to_array (wrap m)

  -- What one node sends another node handles, when the encoding is read back as it was written.
  pub receive-send :
      ((m : WrappedMessage) → codec.parse_from_array (codec.serialize_to_array m) ≡ some m)
      → (m : ElectionMessage) (c : Candidate) → receive (send m) c ≡ some (process m c)
  unfolding receive parse send wrap dispatch
  receive-send same election_start c = ground (arith, same (wrap election_start))
  receive-send same ok_msg c = ground (arith, same (wrap ok_msg))
  receive-send same (new_leader id) c = ground (arith, same (wrap (new_leader id)))
  receive-send same elect_confirm c = ground (arith, same (wrap elect_confirm))

-- ===== src/Tests/Arrivals.antt =====
-- A node that joins over the wire, on concrete nodes.
use cranesps.Base.{
  string_key, String, ◌≡◌, refl, true, false, inl, inr, Option, none, some, [], ◌∷◌, ◌++◌, arith,
  any, if◌then◌else◌, Bool-cases,
}
use cranesps.Base.Text.{str_eq, str_eq_iff}
use cranesps.Base.StdMap.{lookup}
use cranesps.DMember.Heartbeat.{update_join_time}
use cranesps.Introducer.Wire.{WrappedMessage, Peer, Codec, join_group}
use cranesps.Introducer.Arrival.{answered, arrival_exact}

abbrev codec : Codec (Option WrappedMessage)
codec = record { serialize_to_array = λ m. some m; parse_from_array = λ b. b }

abbrev peer : String → Peer
peer id = record {
  service = record {
    id = id;
    join_time = 5;
    member_map =
        (
          id,
          record {
            member_id = id;
            session_id = 0;
            count = 7;
            last_update = 20;
            suspicious = false;
            leaving = false;
          },
        )
        ∷ [];
    members_queue = [];
    connections = [];
    update_on_next_heartbeat = false;
    is_stopped = false;
    sender_finished = false;
  };
  introducer = record { member_join_time = []; member_map = [] };
}

-- Only the host b is there beside the introducer's.
abbrev peers : String → Option Peer
peers host = if str_eq host "b" then some (peer "b") else none

named : (host : String) (p : Peer) → peers host ≡ some p → p.service.id ≡ host
named host p there = elim (Bool-cases (str_eq host "b")) [
  | inl e ↦ ground (arith, e, there, str_eq_iff host "b")
  | inr e ↦ ground (arith, e, there)
]

arrival_exact_example :
    (after : Peer) × (told : Peer) × (join_group codec 99 peers
        (λ host. 100)
        ("a" ∷ "b" ∷ [])
        (peer "b")
        (peer "a")
      ≡ some (after, told))
    × (after.service ≡ update_join_time 99 (peer "b").service)
    × (lookup "b" told.introducer.member_map
        ≡ (if any (λ host. str_eq host "b") ("a" ∷ "b" ∷ []) then answered peers 100 "b" else none))
    × (told.service.members_queue
        ≡ (peer "a").service.members_queue ++ told.introducer.member_map ∷ [])
    × (told.service.update_on_next_heartbeat ≡ true)
arrival_exact_example =
    arrival_exact codec (λ m. refl) peers named 99 (λ host. 100) ("a" ∷ "b" ∷ []) (peer "b")
      (peer "a") "b"

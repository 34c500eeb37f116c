-- ===== src/Introducer/Arrival.antt =====
-- A node that joins the group over the wire.
use mathlib.Core.Option
use cranesps.Base.{
  string_key, ℕ, String, ◌≡◌, refl, sym, ap, ◌∙◌, true, false, inl, inr, Option, none, some, List,
  [], ◌∷◌, ◌++◌, arith, any, if◌then◌else◌, Bool-cases, Option-cases,
}
use cranesps.Base.Text.{str_eq, str_eq_iff}
use cranesps.Base.StdMap.{lookup}
use cranesps.Member.{Member}
use cranesps.DMember.Heartbeat.{
  PingAck, reply_ping_request, update_join_time, update_connections_on_next_heartbeat,
}
use cranesps.Introducer.{member_of, check_availability, process_join_request}
use cranesps.Introducer.Join.{first_ack, join_exact}
use cranesps.Introducer.Wire.{
  WrappedMessage, Peer, Call, on_ping_request, on_ping_ack, on_join_request, on_join_ack, Codec,
  handle, message, send, receive, ping, pings, join_group, dispatch-message,
}

-- The record that a host's answer to a ping makes: a host that is there, and has a record of
-- itself, with its count.
abbrev pub answered : (String → Option Peer) → ℕ → String → Option Member
answered peers now host = elim (peers host) [
  | none ↦ none
  | some p ↦
      Option.map
        (λ (m : Member). record {
          member_id = host;
          session_id = 0;
          count = m.count;
          last_update = now;
          suspicious = false;
          leaving = false;
        })
        (lookup host p.service.member_map)
]

module _ {Bytes : Type 0} (codec : Codec Bytes)
    (same : (m : WrappedMessage)
      → codec.parse_from_array (codec.serialize_to_array m) ≡ some m) where
  receive-send :
      (now : ℕ) (acks : List (PingAck × ℕ)) (c : Call) (p : Peer)
      → receive codec now acks (send codec c) p ≡ handle now acks c p
  unfolding receive send
  receive-send now acks c p = ground (arith, same (message c), dispatch-message c)

  module _ (peers : String → Option Peer)
      (named : (host : String) (p : Peer) → peers host ≡ some p → p.service.id ≡ host) where
    ping-answered :
        (host : String) (now : ℕ)
        → Option.map (λ a. member_of a now) (ping codec peers host) ≡ answered peers now host
    unfolding ping member_of handle reply_ping_request send
    ping-answered host now = elim (Option-cases (peers host)) [
      | inl gone ↦ ground (arith, gone)
      | inr (p, there) ↦
          let own = named host p there in
          let asked = receive-send 0 [] on_ping_request p in
          elim (Option-cases (lookup p.service.id p.service.member_map)) [
            | inl unborn ↦
                let unborn' : lookup host p.service.member_map ≡ none =
                  ap (λ x. lookup x p.service.member_map) (sym own) ∙ unborn in
                ground (arith, there, asked, unborn, unborn')
            | inr (m, born) ↦
                let born' : lookup host p.service.member_map ≡ some m =
                  ap (λ x. lookup x p.service.member_map) (sym own) ∙ born in
                let a : PingAck = record {
                  id = p.service.id;
                  timestamp = p.service.join_time;
                  count = m.count;
                } in
                ground (
                  arith,
                  there,
                  asked,
                  born,
                  born',
                  own,
                  same (message (on_ping_ack a)),
                  dispatch-message (on_ping_ack a),
                )
          ]
    ]

    answered-named :
        (host : String) (now : ℕ) (x : Member)
        → answered peers now host ≡ some x
        → x.member_id ≡ host
    answered-named host now x is = elim (Option-cases (peers host)) [
      | inl gone ↦ ground (arith, gone, is)
      | inr (p, there) ↦ elim (Option-cases (lookup host p.service.member_map)) [
        | inl unborn ↦ ground (arith, there, unborn, is)
        | inr (m, born) ↦ ground (arith, there, born, is)
      ]
    ]

    first_ack-pings :
        (clock : String → ℕ) (hosts : List String) (j : String)
        → first_ack j (pings codec peers clock hosts)
          ≡ (if any (λ host. str_eq host j) hosts then answered peers (clock j) j else none)
    unfolding pings first_ack member_of
    first_ack-pings clock [] j = refl
    first_ack-pings clock (host ∷ hosts) j =
        let rest = first_ack-pings clock hosts j in
        let told = ping-answered host (clock host) in
        elim (Option-cases (ping codec peers host)) [
          | inl silent ↦ elim (Bool-cases (str_eq host j)) [
            | inl e ↦
                let here : answered peers (clock j) j ≡ none =
                  ap (λ x. answered peers (clock x) x) (sym ((str_eq_iff host j).0 e))
                  ∙ sym told
                  ∙ ap (Option.map (λ a. member_of a (clock host))) silent in
                ground (arith, e, silent, rest, here)
            | inr e ↦ ground (arith, e, silent, rest)
          ]
          | inr (a, answers) ↦
              let made : answered peers (clock host) host ≡ some (member_of a (clock host)) =
                sym told ∙ ap (Option.map (λ a. member_of a (clock host))) answers in
              let own : a.id ≡ host = answered-named host (clock host) _ made in
              elim (Bool-cases (str_eq host j)) [
                | inl e ↦
                    let here : answered peers (clock j) j ≡ some (member_of a (clock host)) =
                      ap (λ x. answered peers (clock x) x) (sym ((str_eq_iff host j).0 e)) ∙ made in
                    let mine : str_eq a.id j ≡ true = ap (λ x. str_eq x j) own ∙ e in
                    ground (arith, e, answers, rest, here, mine)
                | inr e ↦
                    let other : str_eq a.id j ≡ false = ap (λ x. str_eq x j) own ∙ e in
                    ground (arith, e, answers, rest, other)
              ]
        ]

    -- A node joins over a wire whose encoding is read back as it was written, where every host that
    -- is there runs a node of the host's name: the request is handled, the reply gives the node the
    -- time of the introducer, and the introducer then knows, for every name, exactly the hosts that
    -- it pinged, that are there and that have a record of themselves, each with that record's count
    -- and the time of its answer; this map is queued last for its service, and the next heartbeat is
    -- to make all connect anew.
    pub arrival_exact :
        (now : ℕ) (clock : String → ℕ) (hosts : List String) (p i : Peer) (j : String)
        → (after : Peer) × (told : Peer) × (join_group codec now peers clock hosts p i
            ≡ some (after, told))
          × (after.service ≡ update_join_time now p.service)
          × (lookup j told.introducer.member_map
              ≡ (if any (λ host. str_eq host j) hosts then answered peers (clock j) j else none))
          × (told.service.members_queue
              ≡ i.service.members_queue ++ told.introducer.member_map ∷ [])
          × (told.service.update_on_next_heartbeat ≡ true)
    unfolding join_group handle process_join_request check_availability
        update_connections_on_next_heartbeat
    arrival_exact now clock hosts p i j =
        let acks = pings codec peers clock hosts in
        let (states, time) = process_join_request now acks p.service.id i.introducer i.service in
        let told : Peer = record { service = states.1; introducer = states.0 } in
        let exact =
          join_exact now acks p.service.id i.introducer i.service j
            (record { born = 0; own = 0; merging = λ k key. 0; sweeping = λ key. 0 }) (λ key. 0) in
        let asked = receive-send now acks (on_join_request p.service.id) i in
        let back = receive-send now [] (on_join_ack time) p in
        (
          record p { service = update_join_time time p.service },
          told,
          ground (arith, asked, back),
          ap (λ t. update_join_time t p.service) exact.0,
          exact.2 ∙ first_ack-pings clock hosts j,
          exact.3,
          refl,
        )

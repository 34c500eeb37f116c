-- ===== src/Client.antt =====
-- The client (`client/src/CraneClient.cpp`) and the handler of Nimbus's replies
-- (`client/src/message/MessageHandler.cpp`).
pub mod Ports
pub mod Submit
use cranesps.Base.{
  string_key, ℕ, zero, suc, ◌+◌, String, Bool, true, false, Option, none, some, List, [], ◌∷◌, map,
  length, ltb, ◌==◌, if◌then◌else◌,
}
use cranesps.Base.StdMap.{lookup, set}
use cranesps.Nimbus.Stats.{SpoutSpec, BoltSpec, TopologySpec}
use cranesps.Topology.Request.{RequestBolt, RequestSpout, SubmitRequest}

-- `send_port` is the static variable of `nextSendPort`.
pub record Client : Type 0 where
  pub path : List (String × String)
  pub send_port : ℕ

abbrev pub send_port_base : ℕ
send_port_base = 11100

abbrev pub send_port_max : ℕ
send_port_max = 11200

unfoldable pub next_send_port : Client → ℕ × Client
next_send_port c =
    let port = if c.send_port == send_port_max then send_port_base else c.send_port in
    (port, record c { send_port = suc port })

-- `SystemHelper::getdir`, tar, md5sum and the joining of texts are what the client finds around it;
-- `free` says whether a port can be bound.
pub record Host : Type 0 where
  pub get_dir : String → Option (List String)
  pub tar : String → List ℕ
  pub md5 : List ℕ → String
  pub archive_name : String → String
  pub free : ℕ → Bool

-- The loop that looks for a port that can be bound; `none` where the fuel ends first.
unfoldable pub find_port : ℕ → (ℕ → Bool) → Client → Option (ℕ × Client)
find_port zero free c = none
find_port (suc fuel) free c =
    let (port, next) = next_send_port c in
    let later = find_port fuel free next in if free port then some (port, next) else later

unfoldable pub request_bolt : BoltSpec → RequestBolt
request_bolt bs = record {
  name = bs.name;
  parents = bs.parents;
  run_name = bs.run_name;
  para_level = if ltb 3 bs.para_level then some bs.para_level else none;
}

unfoldable pub request_spout : SpoutSpec → RequestSpout
request_spout ss = record { name = ss.name; run_name = ss.run_name }

-- `submit`: the path is kept in any case, the request is made where the directory is there.
unfoldable pub submit : Host → TopologySpec → String → Client → Client × Option SubmitRequest
submit host spec dir c = (
  record c { path = set spec.name dir c.path },
  elim (host.get_dir dir) [
    | none ↦ none
    | some _ ↦ some (record {
      topo_name = spec.name;
      bolt_specs = map request_bolt spec.bolt_specs;
      spout_specs = map request_spout spec.spout_specs;
      acker_bolt = some spec.acker_bolt;
    })
  ],
)

pub record SendRequest : Type 0 where
  pub topo_name : String
  pub filename : String
  pub port : ℕ
  pub file_size : ℕ
  pub file_md5 : String
  pub content : List ℕ
  pub extracted_files : List String

pub data Sending : Type 0 where
  not_in_cache no_directory : Sending
  sends : SendRequest → Sending

-- `send`, the reply to an approved submission: `none` where no port is found on the fuel.
unfoldable pub send : ℕ → Host → String → Client → Option (Client × Sending)
send fuel host topo_id c = elim (lookup topo_id c.path) [
  | none ↦ some (c, not_in_cache)
  | some dir ↦ elim (host.get_dir dir) [
    | none ↦ some (c, no_directory)
    | some files ↦ elim (find_port fuel host.free c) [
      | none ↦ none
      | some (port, next) ↦ some (
        next,
        sends (record {
          topo_name = topo_id;
          filename = host.archive_name topo_id;
          port = port;
          file_size = length (host.tar dir);
          file_md5 = host.md5 (host.tar dir);
          content = host.tar dir;
          extracted_files = files;
        }),
      )
    ]
  ]
]

-- The handler of the reply to a submission.
unfoldable pub process_submit_reply :
    ℕ → Host → String → Bool → Client → Option (Client × Option Sending)
process_submit_reply fuel host topo_name approval c = elim approval [
  | false ↦ some (c, none)
  | true ↦ elim (send fuel host topo_name c) [ none ↦ none | some (next, s) ↦ some (next, some s) ]
]

-- ===== src/Topology/Request.antt =====
-- `CraneClientRequest.SubmitRequest` and `TopologySpec::parseFromRequest`.
use cranesps.Base.{ℕ, String, Bool, true, Option, List, map}
use cranesps.Base.StdMap.{get_or}
use cranesps.Nimbus.Stats.{SpoutSpec, BoltSpec, TopologySpec, empty_spec}

pub record RequestBolt : Type 0 where
  pub name : String
  pub parents : List (String × String)
  pub run_name : String
  pub para_level : Option ℕ

pub record RequestSpout : Type 0 where
  pub name : String
  pub run_name : String

pub record SubmitRequest : Type 0 where
  pub topo_name : String
  pub bolt_specs : List RequestBolt
  pub spout_specs : List RequestSpout
  pub acker_bolt : Option Bool

-- The parallelism of `BoltSpec()` is 3.
unfoldable pub parse_bolt : RequestBolt → BoltSpec
parse_bolt bs = record {
  name = bs.name;
  parents = bs.parents;
  run_name = bs.run_name;
  para_level = get_or bs.para_level 3;
}

unfoldable pub parse_spout : RequestSpout → SpoutSpec
parse_spout ss = record { name = ss.name; run_name = ss.run_name }

unfoldable pub parse_from_request : SubmitRequest → TopologySpec
parse_from_request request = record empty_spec {
  name = request.topo_name;
  bolt_specs = map parse_bolt request.bolt_specs;
  spout_specs = map parse_spout request.spout_specs;
  acker_bolt = get_or request.acker_bolt true;
}

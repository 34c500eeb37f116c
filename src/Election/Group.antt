-- ===== src/Election/Group.antt =====
-- The candidates of a group, the requests of the node that elects itself, and the replies to them:
-- every request runs in a thread of its own, so requests and replies come in any order.
use cranesps.Base.{ℕ, suc, String, ◌≡◌, some, List, [], ◌∷◌, ◌++◌, map, if◌then◌else◌}
use cranesps.Base.Text.{str_eq}
use cranesps.Election.Node.{Candidate, ElectionMessage, Sends, Outcome, election_thread}
use cranesps.Election.Wire.{Codec, receive, send}

-- The candidates by the names of their nodes.
abbrev pub update : String → Candidate → (String → Candidate) → String → Candidate
update node c nodes j = if str_eq node j then c else nodes j

pub record Group (Bytes : Type 0) : Type 0 where
  pub nodes : String → Candidate
  pub requests : Sends  -- on the way
  pub replies : List Bytes  -- on the way back to the node that asks

module _ {Bytes : Type 0} (codec : Codec Bytes) (leader : String) where
  -- A request arrives and is handled, or a reply does.
  pub data Step : Group Bytes → Group Bytes → Type 0 where
    on_request :
        (g : Group Bytes) (before after : Sends) (node : String) (m : ElectionMessage) (o : Outcome)
        → g.requests ≡ before ++ (node, m) ∷ after
        → receive codec (send codec m) (g.nodes node) ≡ some o
        → Step g (record {
          nodes = update node o.state g.nodes;
          requests = before ++ after;
          replies = g.replies ++ map (send codec) o.reply;
        })
    on_reply :
        (g : Group Bytes) (before after : List Bytes) (buffer : Bytes) (o : Outcome)
        → g.replies ≡ before ++ buffer ∷ after
        → receive codec buffer (g.nodes leader) ≡ some o
        → Step g (record g { nodes = update leader o.state g.nodes; replies = before ++ after })

  -- The end of the election thread of the node.
  abbrev pub begun : String → List String → (String → Candidate) → Group Bytes
  begun first rest nodes =
      let (asked, sends) = election_thread first rest (nodes leader) in
      record { nodes = update leader asked nodes; requests = sends; replies = [] }

  -- The groups after a number of steps.
  pub data Run (g : Group Bytes) : ℕ → Group Bytes → Type 0 where
    here : Run g 0 g
    later : {k : ℕ} {h h' : Group Bytes} → Run g k h → Step h h' → Run g (suc k) h'

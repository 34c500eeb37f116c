-- ===== src/FileNode/Unanswered.antt =====
-- What becomes of the receiving threads after a buffer that they do not answer.
use cranesps.Base.{string_key, String, ◌≡◌, Bool, true, false, Option, some, List, ℕ}
use cranesps.FileMaster.Replicate.{Command}
use cranesps.FileMaster.Requests.{Draws}
use cranesps.FileNode.Messages.{WrappedDFileMessage, on_command_request}
use cranesps.FileNode.Daemon.{Daemon, Codec, send}

module _ {Bytes : Type 0} (codec : Codec Bytes) (md5 : Option (List ℕ) → String) (draws : Draws)
    (can_recv : Bool → Bool) (rep : can_recv true ≡ false) where
  module _ (sender : String) (c : Command)
      (same : (m : WrappedDFileMessage)
        → codec.parse_from_array (codec.serialize_to_array m) ≡ some m) where
    order : Bytes
    order = send codec (on_command_request sender c)

-- ===== src/Tests/Messages.antt =====
-- Messages of each kind: a batch, a request to start the workers of a name, and a request to a
-- worker that counts.
use cranesps.Base.{ℕ, String, ◌≡◌, refl, true, some, []}
use cranesps.Base.Text.{str_eq}
use cranesps.Nimbus.Lifecycle
use cranesps.Supervisor.Life.{first_supervisor}
use cranesps.Supervisor.Messages.{process}
use cranesps.Worker.Child
use cranesps.Worker.Child.{new_child, process_request}
use cranesps.Crane.{CraneWrappedMessage}
use cranesps.Nimbus.Requests.{submit_reply}
use cranesps.Crane.Parser.{on_tuple_batch, calls}
use cranesps.Crane.Replies.{client_call}
use cranesps.Crane.Messages.{nimbus_call, supervisor_call}
use cranesps.Crane.Wire.{
  Codec, parsed, parse, send, client_parse, send_reply_to_client, round, supervise, work, arrives,
  messages_arrive,
}

abbrev wire : Codec CraneWrappedMessage
wire = record { serialize_to_array = λ m. m; parse_from_array = λ m. some m }

abbrev start_counts : Lifecycle.NimbusRequest
start_counts = Lifecycle.start_worker "b" "words" "count"

messages_arrive_example :
    let join = λ (a b : String). b in
    let child = new_child {N = ℕ} "w" true 0 in
    (parse wire (send wire (on_tuple_batch [])) ≡ parsed (arrives (on_tuple_batch [])))
    × (round
          (supervise join str_eq)
          (parse wire (send wire (nimbus_call start_counts)))
          first_supervisor
        ≡ some (process join str_eq start_counts first_supervisor))
    × (round work (parse wire (send wire (supervisor_call Child.start))) child
        ≡ some (process_request Child.start child).0)
    × (client_parse wire (send_reply_to_client wire (submit_reply "words" true))
        ≡ some (calls (client_call (submit_reply "words" true))))
messages_arrive_example =
    messages_arrive wire (λ a b. b) str_eq (on_tuple_batch []) start_counts first_supervisor
      Child.start (new_child {N = ℕ} "w" true 0) (submit_reply "words" true) (λ m. refl)

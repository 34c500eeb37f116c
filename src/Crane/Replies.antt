-- ===== src/Crane/Replies.antt =====
-- The replies of Nimbus to the client, as daemon/src/message/CraneMessageHandler.cpp fills them in,
-- and what the client's parser does with them.
use cranesps.Base.{◌≡◌, refl}
use cranesps.Nimbus.Requests
use cranesps.Nimbus.Requests.{ClientReply, WorkerStatus}
use cranesps.Crane.{
  ClientType, ClientReplyBody, CraneWrappedMessage, submit_type, start_type, stop_type, kill_type,
  send_type, status_type, submit_reply, start_reply, stop_reply, kill_reply, send_reply,
  status_reply, client_rep, crane_client_reply,
}
use cranesps.Crane.Parser.{
  ClientCall, on_submit_reply, on_send_reply, on_start_reply, on_stop_reply, on_kill_reply,
  on_status_reply, calls, client_dispatch,
}

abbrev to_client : ClientType → ClientReplyBody → CraneWrappedMessage
to_client type msg = record {
  type = client_rep;
  msg = crane_client_reply (record { type = type; msg = msg });
}

unfoldable pub reply_message : ClientReply → CraneWrappedMessage
reply_message (Requests.kill_reply name nonexist) = to_client kill_type (kill_reply name nonexist)
reply_message (Requests.start_reply name nonexist) =
    to_client start_type (start_reply name nonexist)
reply_message (Requests.stop_reply name nonexist) = to_client stop_type (stop_reply name nonexist)
reply_message (Requests.submit_reply name approval) =
    to_client submit_type (submit_reply name approval)
reply_message (Requests.send_reply name md5_match) = to_client send_type (send_reply name md5_match)
reply_message (Requests.status_reply topologies) = to_client status_type (status_reply topologies)

-- The handler of the client that each reply is meant for; three of them never read theirs.
abbrev pub client_call : ClientReply → ClientCall
client_call (Requests.kill_reply name nonexist) = on_kill_reply
client_call (Requests.start_reply name nonexist) = on_start_reply
client_call (Requests.stop_reply name nonexist) = on_stop_reply
client_call (Requests.submit_reply name approval) = on_submit_reply name approval
client_call (Requests.send_reply name md5_match) = on_send_reply name md5_match
client_call (Requests.status_reply topologies) = on_status_reply topologies

pub client_dispatch-reply_message :
    (r : ClientReply)
    → client_dispatch (reply_message r).type (reply_message r).msg ≡ calls (client_call r)
unfolding client_dispatch reply_message
client_dispatch-reply_message (Requests.kill_reply name nonexist) = refl
client_dispatch-reply_message (Requests.start_reply name nonexist) = refl
client_dispatch-reply_message (Requests.stop_reply name nonexist) = refl
client_dispatch-reply_message (Requests.submit_reply name approval) = refl
client_dispatch-reply_message (Requests.send_reply name md5_match) = refl
client_dispatch-reply_message (Requests.status_reply topologies) = refl

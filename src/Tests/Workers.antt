-- ===== src/Tests/Workers.antt =====
-- A bolt that counts, its batches and its connections.
use cranesps.Base.{ℕ, suc, ◌≡◌, refl, Bool, true, false, some, List, [], ◌∷◌, inl, inr, arith}
use cranesps.Topology.Grouping.{parse_grouping_string}
use cranesps.Worker.Send.{
  Tuple, CraneTuple, InternalConnectionGroup, send_groups, send_group, create_tuple_batch_message,
  create_tuple_message,
}
use cranesps.Worker.Child.{
  SupervisorRequest, TopologyNode, ChildImpl, config_conns, new_child, process_tuple_batch,
  process_request, process_step, send_step, run_bolt, push_tuples, push_tuple,
  configure_connections, connect_group,
}
use cranesps.Worker.Child.Life.{
  Life, Sending, begin, hear_batch, obey, process, send, IsFaithful, Life-IsFaithful,
}
use cranesps.Worker.Deliver.{AllSendable, AllDelivered, flush_exact}

abbrev counter : TopologyNode ℕ
counter = record {
  run_on_tuple = λ n t. (suc n, record t { id = n } ∷ record t { id = n } ∷ []);
  next_tuple = λ n. (n, record { id = n; fields = [] });
}

abbrev word : ℕ → Tuple
word c = record { id = 0; fields = (c ∷ []) ∷ [] }

abbrev sent_word : ℕ → CraneTuple
sent_word c = record { id = 0; fields = (c ∷ []) ∷ [] }

abbrev groups : List InternalConnectionGroup
groups =
    record { child_name = "x"; grouping = "FieldGrouping"; connections = "p" ∷ "q" ∷ [] }
    ∷ record { child_name = "y"; grouping = "ShuffleGrouping"; connections = "r" ∷ [] }
    ∷ []

abbrev full : ChildImpl ℕ
full = record (new_child "w" true 0) {
  connection_groups = groups;
  sending = word 3 ∷ word 4 ∷ word 5 ∷ [];
  flushing = true;
}

sendable : AllSendable (λ _. 0) full.sending full.connection_groups
unfolding parse_grouping_string
sendable = (
  inr (refl, omega arith, ((_, _, refl), ((_, _, refl), ((_, _, refl), tt)))),
  (inl (refl, omega arith), tt),
)

flush_exact_example :
    (sent : List (List (ℕ × List CraneTuple))) × (send_step (λ _. 0) full
      ≡ some (record full { sending = []; flushing = false }, sent))
    × AllDelivered ℕ (λ _. 0) full.sending full.connection_groups sent
flush_exact_example = flush_exact ℕ (λ _. 0) full refl sendable

-- A life: the worker is started and gets its connections, hears a tuple, runs on it, and sends the
-- two tuples that the bolt pushes.
abbrev batch : List CraneTuple
batch = sent_word 3 ∷ []

abbrev quick : ChildImpl ℕ → ChildImpl ℕ
quick c = process_step counter c

abbrev configure : SupervisorRequest
configure =
    config_conns
      (record { child_name = "x"; grouping = "ShuffleGrouping"; addresses = "p" ∷ [] } ∷ [])

abbrev connected : ChildImpl ℕ
connected = (process_request configure (new_child "w" true 0)).0

abbrev ran : ChildImpl ℕ
ran = quick (quick (quick (process_tuple_batch batch connected)))

abbrev taken : List Tuple → List Tuple → Bool → ChildImpl ℕ
taken out sending flushing = record ran { out_data = out; sending = sending; flushing = flushing }

abbrev pushed : Tuple
pushed = record { id = 0; fields = (3 ∷ []) ∷ [] }

abbrev zero_draws : ℕ → ℕ
zero_draws i = 0

abbrev flushed : List (List (ℕ × List CraneTuple))
flushed = ((0, sent_word 3 ∷ sent_word 3 ∷ []) ∷ []) ∷ []

abbrev log : List Sending
log = record { draws = zero_draws; groups = ran.connection_groups; messages = flushed } ∷ []

life : Life counter "w" 0 (taken [] [] false) (word 3 ∷ []) log
unfolding send_step process_step run_bolt process_tuple_batch push_tuples push_tuple process_request
    configure_connections connect_group send_groups send_group parse_grouping_string
    create_tuple_batch_message create_tuple_message
life =
    send (taken [] (pushed ∷ pushed ∷ []) true) _ _ _ zero_draws flushed refl
      (λ e. (inl (refl, omega arith), tt))
      (send (taken [] (pushed ∷ pushed ∷ []) false) _ _ _ zero_draws [] refl
        (λ e. absurd (ground (arith, e)))
        (send (taken (pushed ∷ []) (pushed ∷ []) false) _ _ _ zero_draws [] refl
          (λ e. absurd (ground (arith, e)))
          (send ran _ _ _ zero_draws [] refl (λ e. absurd (ground (arith, e)))
            (process _ _ _ (
              process _ _ _ (
                process _ _ _ (
                  hear_batch connected _ _ batch
                    (obey (new_child "w" true 0) _ _ configure begin))))))))

Life-IsFaithful_example : IsFaithful counter 0 (taken [] [] false) (word 3 ∷ []) log
Life-IsFaithful_example = Life-IsFaithful counter 0 "w" (taken [] [] false) (word 3 ∷ []) log life

-- ===== src/Worker/Child/Life.antt =====
-- The lives of a worker: its threads and its handlers in any order, and what becomes of the tuples.
use cranesps.Base.{
  ℕ, String, ◌≡◌, refl, sym, ap, ◌∙◌, subst, true, some, List, [], ◌∷◌, ◌++◌, map, arith,
  Bool-cases, inl, inr, append_nil, if◌then◌else◌,
}
use mathlib.Core.List.{append_assoc}
use cranesps.Worker.Send.{Tuple, CraneTuple, InternalConnectionGroup}
use cranesps.Worker.Deliver.{AllSendable, AllDelivered, flush_exact}
use cranesps.Worker.Child.{
  SupervisorRequest, TopologyNode, ChildImpl, read_tuple, new_child, push_tuples, process_tuple,
  process_tuple_batch, process_request, process_step, send_step,
}
use cranesps.Worker.Child.Tuples.{
  run_all, Keeps, Keeps-push_tuples, Keeps-process_request, Keeps-run_bolt, Keeps-send_step,
}

-- One round in which `dataSendThread` sends: what it draws, the groups that it has then, and the
-- messages of each.
pub record Sending : Type 0 where
  pub draws : ℕ → ℕ
  pub groups : List InternalConnectionGroup
  pub messages : List (List (ℕ × List CraneTuple))

unfoldable pub joined : List (List Tuple) → List Tuple
joined [] = []
joined (b ∷ bs) = b ++ joined bs

joined-append : (bs : List (List Tuple)) (b : List Tuple) → joined (bs ++ b ∷ []) ≡ joined bs ++ b
unfolding joined
joined-append [] b = append_nil b
joined-append (x ∷ bs) b =
    ap (λ l. x ++ l) (joined-append bs b) ∙ sym (append_assoc x (joined bs) b)

-- Each round sent its batch.
abbrev pub AllSent : Type 0 → List (List Tuple) → List Sending → Type 0
AllSent N [] [] = Unit
AllSent N (b ∷ bs) (s ∷ log) = AllDelivered N s.draws b s.groups s.messages × AllSent N bs log
AllSent N _ _ = ⊥

AllSent-append :
    (N : Type 0) (bs : List (List Tuple)) (log : List Sending) (b : List Tuple) (s : Sending)
    → AllSent N bs log
    → AllDelivered N s.draws b s.groups s.messages
    → AllSent N (bs ++ b ∷ []) (log ++ s ∷ [])
AllSent-append N [] [] b s a d = (d, tt)
AllSent-append N [] (l ∷ log) b s a d = elim a [ ]
AllSent-append N (x ∷ bs) [] b s a d = elim a [ ]
AllSent-append N (x ∷ bs) (l ∷ log) b s a d = (a.0, AllSent-append N bs log b s a.1 d)

module _ {N : Type 0} where
  -- A life of a bolt: the tuples it was sent, and the messages that it sent. What it sends is what
  -- the groupings can send: a scheme that is known, a draw in range, and fields to hash.
  pub data Life (user : TopologyNode N) (id : String) (first : N)
      : ChildImpl N → List Tuple → List Sending → Type 0 where
    begin : Life user id first (new_child id true first) [] []
    hear :
        (c : ChildImpl N) (received : List Tuple) (log : List Sending) (t : CraneTuple)
        → Life user id first c received log
        → Life user id first (process_tuple t c) (received ++ read_tuple t ∷ []) log
    hear_batch :
        (c : ChildImpl N) (received : List Tuple) (log : List Sending) (batch : List CraneTuple)
        → Life user id first c received log
        → Life user id first (process_tuple_batch batch c) (received ++ map read_tuple batch) log
    obey :
        (c : ChildImpl N) (received : List Tuple) (log : List Sending) (r : SupervisorRequest)
        → Life user id first c received log
        → Life user id first (process_request r c).0 received log
    process :
        (c : ChildImpl N) (received : List Tuple) (log : List Sending)
        → Life user id first c received log
        → Life user id first (process_step user c) received log
    send :
        (c d : ChildImpl N) (received : List Tuple) (log : List Sending) (draws : ℕ → ℕ)
        → (sent : List (List (ℕ × List CraneTuple))) → send_step draws c ≡ some (d, sent)
        → (c.flushing ≡ true → AllSendable draws c.sending c.connection_groups)
        → Life user id first c received log
        → Life user id first d received (
            if c.flushing
            then log ++ record { draws = draws; groups = c.connection_groups; messages = sent } ∷ []
            else log)

  abbrev pub IsFaithful : TopologyNode N → N → ChildImpl N → List Tuple → List Sending → Type 0
  IsFaithful user first c received log =
      (bs : List (List Tuple)) × AllSent N bs log × Keeps user first c received (joined bs)

  module _ (user : TopologyNode N) (first : N) where
    IsFaithful-send_step :
        (c d : ChildImpl N) (received : List Tuple) (log : List Sending) (draws : ℕ → ℕ)
        → (sent : List (List (ℕ × List CraneTuple))) → send_step draws c ≡ some (d, sent)
        → (c.flushing ≡ true → AllSendable draws c.sending c.connection_groups)
        → IsFaithful user first c received log
        → IsFaithful user first d received (
            if c.flushing
            then log ++ record { draws = draws; groups = c.connection_groups; messages = sent } ∷ []
            else log)
    IsFaithful-send_step c d received log draws sent run ok (bs, all, h) =
        let after = Keeps-send_step user first c d received (joined bs) draws sent run h in
        elim (Bool-cases c.flushing) [
          | inr idle ↦ rw idle (bs, all, rw idle at after)
          | inl busy ↦
              let (made, done, each) = flush_exact N draws c busy (ok busy) in
              let same : made ≡ sent = ground (arith, done, run) in
              let kept : Keeps user first d received (joined bs ++ c.sending) = rw busy at after in
              rw busy (
                bs ++ c.sending ∷ [],
                AllSent-append N bs log c.sending
                    (record { draws = draws; groups = c.connection_groups; messages = sent }) all
                    (subst (AllDelivered N draws c.sending c.connection_groups) same each),
                subst (Keeps user first d received) (sym (joined-append bs c.sending)) kept,
              )
        ]

    -- In every life of a bolt, whatever the order of its threads and messages: the tuples that it
    -- was sent are those that the user's bolt has run on, each once and in order, and then those
    -- that wait in the worker; what the user's bolt makes of the former is some batches, one for
    -- each round of sending, and then what waits to be sent; and the messages of each round, for
    -- every group that the worker then has, make the worker at each connection queue exactly the
    -- tuples of that batch that the rule of the group gives it, in order.
    pub Life-IsFaithful :
        (id : String) (c : ChildImpl N) (received : List Tuple) (log : List Sending)
        → Life user id first c received log
        → IsFaithful user first c received log
    unfolding run_all process_tuple process_tuple_batch process_step push_tuples joined
    Life-IsFaithful id _ _ _ begin =
        ([], tt, record { ran = []; bolt = refl; waiting = refl; pushed = refl })
    Life-IsFaithful id _ _ _ (hear c received log t life) =
        let (bs, sent, h) = Life-IsFaithful id c received log life in
        (bs, sent, Keeps-push_tuples user first c received (joined bs) (read_tuple t ∷ []) h)
    Life-IsFaithful id _ _ _ (hear_batch c received log batch life) =
        let (bs, sent, h) = Life-IsFaithful id c received log life in
        (bs, sent, Keeps-push_tuples user first c received (joined bs) (map read_tuple batch) h)
    Life-IsFaithful id _ _ _ (obey c received log r life) =
        let (bs, sent, h) = Life-IsFaithful id c received log life in
        (bs, sent, Keeps-process_request user first c received (joined bs) r h)
    Life-IsFaithful id _ _ _ (process c received log life) =
        let (bs, sent, h) = Life-IsFaithful id c received log life in
        (bs, sent, rw (process_step, h.bolt) (Keeps-run_bolt user first c received (joined bs) h))
    Life-IsFaithful id _ _ _ (send c d received log draws sent run ok life) =
        IsFaithful-send_step c d received log draws sent run ok
          (Life-IsFaithful id c received log life)

-- ===== src/Worker/Deliver.antt =====
-- A batch on its way from `dataSendThread` of one worker to the queues of the others.
use cranesps.Base.{
  ℕ, suc, ◌<◌, ◌≡◌, refl, sym, ap, ◌∙◌, true, false, some, List, [], ◌∷◌, ◌++◌, map, map_cancel,
  map-append, filter, All, length, ◌==◌, Bool-cases, inl, inr, append_nil, if◌then◌else◌,
}
use mathlib.Core.List.{append_assoc}
use cranesps.Worker.Send.{
  Tuple, CraneTuple, InternalConnectionGroup, create_tuple_message, create_tuple_batch_message,
  send_group, send_groups,
}
use cranesps.Worker.Send.Routes.{goes_to, sent_to, route, IsSendable, send_group_exact}
use cranesps.Worker.Child.{
  ChildImpl, read_tuple, push_tuple, push_tuples, process_tuple_batch, send_step,
}

read-create : (ts : List Tuple) → map read_tuple (create_tuple_batch_message ts) ≡ ts
unfolding create_tuple_batch_message create_tuple_message
read-create = map_cancel read_tuple create_tuple_message (λ t. refl)

abbrev pub AllSendable : (ℕ → ℕ) → List Tuple → List InternalConnectionGroup → Type 0
AllSendable draws ts [] = Unit
AllSendable draws ts (g ∷ gs) = IsSendable (draws 0) ts g × AllSendable (λ i. draws (suc i)) ts gs

module _ {N : Type 0} where
  -- The worker at connection `i` gets the messages sent there.
  unfoldable pub receive : ℕ → List (ℕ × List CraneTuple) → ChildImpl N → ChildImpl N
  receive i [] r = r
  receive i ((j, batch) ∷ rest) r =
      receive i rest (if j == i then process_tuple_batch batch r else r)

  in_data-push_tuples :
      (ts : List Tuple) (r : ChildImpl N) → (push_tuples ts r).in_data ≡ r.in_data ++ ts
  unfolding push_tuples push_tuple
  in_data-push_tuples [] r = sym (append_nil r.in_data)
  in_data-push_tuples (t ∷ ts) r =
      in_data-push_tuples ts (push_tuple t r) ∙ append_assoc r.in_data (t ∷ []) ts

  in_data-receive :
      (i : ℕ) (messages : List (ℕ × List CraneTuple)) (r : ChildImpl N)
      → (receive i messages r).in_data ≡ r.in_data ++ map read_tuple (sent_to i messages)
  unfolding receive process_tuple_batch
  in_data-receive i [] r = sym (append_nil r.in_data)
  in_data-receive i ((j, batch) ∷ rest) r = elim (Bool-cases (j == i)) [
    | inl here ↦
        let got = map read_tuple batch in
        let later = map read_tuple (sent_to i rest) in
        rw (receive, here)
          (in_data-receive i rest (push_tuples got r)
            ∙ ap (λ q. q ++ later) (in_data-push_tuples got r)
            ∙ append_assoc r.in_data got later
            ∙ ap (λ q. r.in_data ++ q) (sym (map-append read_tuple batch (sent_to i rest))))
    | inr other ↦ rw (receive, other) (in_data-receive i rest r)
  ]

module _ (N : Type 0) where
  -- What the messages of a group do to the workers behind it: the one at each connection queues
  -- exactly the tuples that the rule of the group gives it, in order.
  abbrev pub IsDelivered :
      ℕ → List Tuple → InternalConnectionGroup → List (ℕ × List CraneTuple) → Type 0
  IsDelivered draw ts g sent =
      ((i : ℕ) (r : ChildImpl N)
        → (receive i sent r).in_data ≡ r.in_data ++ filter (λ t. goes_to (route draw g t) i) ts)
      × All (λ m. m.0 < length g.connections) sent

  abbrev pub AllDelivered :
      (ℕ → ℕ)
      → List Tuple
      → List InternalConnectionGroup
      → List (List (ℕ × List CraneTuple))
      → Type 0
  AllDelivered draws ts [] [] = Unit
  AllDelivered draws ts (g ∷ gs) (sent ∷ rest) =
      IsDelivered (draws 0) ts g sent × AllDelivered (λ i. draws (suc i)) ts gs rest
  AllDelivered draws ts _ _ = ⊥

  send_group-IsDelivered :
      (draw : ℕ) (ts : List Tuple) (g : InternalConnectionGroup)
      → IsSendable draw ts g
      → (sent : List (ℕ × List CraneTuple)) × (send_group draw ts g ≡ some sent)
        × IsDelivered draw ts g sent
  send_group-IsDelivered draw ts g ok =
      let (sent, run, exact, below) = send_group_exact draw ts g ok in
      (
        sent,
        run,
        (
          λ i r.
              in_data-receive i sent r
              ∙ ap (λ q. r.in_data ++ map read_tuple q) (exact i)
              ∙ ap (λ q. r.in_data ++ q)
                  (read-create (filter (λ t. goes_to (route draw g t) i) ts)),
          below,
        ),
      )

  send_groups-AllDelivered :
      (draws : ℕ → ℕ) (ts : List Tuple) (groups : List InternalConnectionGroup)
      → AllSendable draws ts groups
      → (sent : List (List (ℕ × List CraneTuple))) × (send_groups draws ts groups ≡ some sent)
        × AllDelivered draws ts groups sent
  unfolding send_groups
  send_groups-AllDelivered draws ts [] ok = ([], refl, tt)
  send_groups-AllDelivered draws ts (g ∷ gs) ok =
      let (sent, run, here) = send_group-IsDelivered (draws 0) ts g ok.0 in
      let (rest, runs, each) = send_groups-AllDelivered (λ i. draws (suc i)) ts gs ok.1 in
      (sent ∷ rest, rw (send_groups, run, runs), (here, each))

  -- A worker that sends its batch empties it, and every worker behind its groups gets exactly the
  -- tuples that the rule of the group gives it, in the order of the batch.
  pub flush_exact :
      (draws : ℕ → ℕ) (c : ChildImpl N)
      → c.flushing ≡ true
      → AllSendable draws c.sending c.connection_groups
      → (sent : List (List (ℕ × List CraneTuple))) × (send_step draws c
          ≡ some (record c { sending = []; flushing = false }, sent))
        × AllDelivered draws c.sending c.connection_groups sent
  unfolding send_step
  flush_exact draws c busy ok =
      let (sent, run, each) = send_groups-AllDelivered draws c.sending c.connection_groups ok in
      (sent, rw (send_step, busy, run), each)

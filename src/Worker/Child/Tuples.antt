-- ===== src/Worker/Child/Tuples.antt =====
-- What the threads and the handlers of a worker do to the tuples in it.
use cranesps.Base.{
  ℕ, ◌≡◌, sym, ap, ◌∙◌, subst, Bool, true, false, some, List, [], ◌∷◌, ◌++◌, List-cases, arith,
  Option-cases, Bool-cases, inl, inr, append_nil, if◌then◌else◌,
}
use mathlib.Core.List.{append_assoc}
use cranesps.Worker.Send.{Tuple, CraneTuple, send_groups}
use cranesps.Worker.Child.{
  SupervisorRequest, config_conns, start, kill, TopologyNode, ChildImpl, push_tuple, push_tuples,
  process_request, run_bolt, send_step, configure_connections, start_processing, exit_child,
}

module _ {N : Type 0} where
  -- The user's bolt on a sequence of tuples, with no queue, thread or batch.
  unfoldable pub run_all : TopologyNode N → N → List Tuple → N × List Tuple
  run_all user node [] = (node, [])
  run_all user node (t ∷ ts) =
      let (next, pushed) = user.run_on_tuple node t in
      let (last, rest) = run_all user next ts in (last, pushed ++ rest)

  run_all-append :
      (user : TopologyNode N) (node : N) (ts : List Tuple) (t : Tuple)
      → let (mid, out) = run_all user node ts in
        let (last, pushed) = user.run_on_tuple mid t in
        run_all user node (ts ++ t ∷ []) ≡ (last, out ++ pushed)
  unfolding run_all
  run_all-append user node [] t =
      let (last, pushed) = user.run_on_tuple node t in ap (λ x. (last, x)) (append_nil pushed)
  run_all-append user node (s ∷ ts) t =
      let (next, pushed) = user.run_on_tuple node s in
      let (mid, out) = run_all user next ts in
      let (last, more) = user.run_on_tuple mid t in
      ap (λ r. (r.0, pushed ++ r.1)) (run_all-append user next ts t)
      ∙ ap (λ x. (last, x)) (sym (append_assoc pushed out more))

  -- The tuples that the bolt has run on are the first of those received, the others wait in the
  -- worker in order; what the bolt pushed is what left the worker, then what waits to be sent.
  pub record Keeps (user : TopologyNode N) (first : N) (c : ChildImpl N)
      (received flushed : List Tuple) : Type 0 where
    pub ran : List Tuple
    pub bolt : c.is_bolt ≡ true
    pub waiting : received ≡ ran ++ (c.processing ++ c.in_data)
    pub pushed : run_all user first ran ≡ (c.node, flushed ++ (c.sending ++ c.out_data))

  push_tuples-in_data :
      (ts : List Tuple) (c : ChildImpl N)
      → push_tuples ts c ≡ record c { in_data = c.in_data ++ ts }
  unfolding push_tuples push_tuple
  push_tuples-in_data [] c = ap (λ q. record c { in_data = q }) (sym (append_nil c.in_data))
  push_tuples-in_data (t ∷ ts) c =
      push_tuples-in_data ts (push_tuple t c)
      ∙ ap (λ q. record c { in_data = q }) (append_assoc c.in_data (t ∷ []) ts)

  module _ (user : TopologyNode N) (first : N) where
    pub Keeps-push_tuples :
        (c : ChildImpl N) (received flushed ts : List Tuple)
        → Keeps user first c received flushed
        → Keeps user first (push_tuples ts c) (received ++ ts) flushed
    Keeps-push_tuples c received flushed ts h =
        subst (λ d. Keeps user first d (received ++ ts) flushed) (sym (push_tuples-in_data ts c))
          (record {
            ran = h.ran;
            bolt = h.bolt;
            waiting = cc (
              h.waiting,
              append_assoc h.ran (c.processing ++ c.in_data) ts,
              append_assoc c.processing c.in_data ts,
            );
            pushed = h.pushed;
          })

    module _ (c : ChildImpl N) (received flushed : List Tuple)
        (h : Keeps user first c received flushed) where
      -- One tuple moves from the queue to the thread, or is run.
      Keeps-load :
          (t : Tuple) (ts : List Tuple)
          → c.in_data ≡ t ∷ ts
          → Keeps user first
              (record c { in_data = ts; processing = c.processing ++ t ∷ [] })
              received
              flushed
      Keeps-load t ts e = record {
        ran = h.ran;
        bolt = h.bolt;
        waiting = cc (h.waiting, e, append_assoc c.processing (t ∷ []) ts);
        pushed = h.pushed;
      }

      Keeps-run :
          (t : Tuple) (ts : List Tuple)
          → c.processing ≡ t ∷ ts
          → let (node, out) = user.run_on_tuple c.node t in
            Keeps user first
              (record c { processing = ts; node = node; out_data = c.out_data ++ out })
              received
              flushed
      Keeps-run t ts e =
          let (node, out) = user.run_on_tuple c.node t in
          record {
            ran = h.ran ++ t ∷ [];
            bolt = h.bolt;
            waiting = cc (h.waiting, e, append_assoc h.ran (t ∷ []) (ts ++ c.in_data));
            pushed =
                run_all-append user first h.ran t
                ∙ ap
                    (λ (r : N × List Tuple).
                      ((user.run_on_tuple r.0 t).0, r.1 ++ (user.run_on_tuple r.0 t).1))
                    h.pushed
                ∙ ap (λ x. (node, x))
                    (append_assoc flushed (c.sending ++ c.out_data) out
                      ∙ ap (λ x. flushed ++ x) (append_assoc c.sending c.out_data out));
          }

      Keeps-take :
          (t : Tuple) (ts : List Tuple)
          → c.out_data ≡ t ∷ ts
          → Keeps user first
              (record c { out_data = ts; sending = c.sending ++ t ∷ [] })
              received
              flushed
      Keeps-take t ts e = record {
        ran = h.ran;
        bolt = h.bolt;
        waiting = h.waiting;
        pushed = cc (h.pushed, e, append_assoc c.sending (t ∷ []) ts);
      }

      Keeps-flush :
          Keeps user first
            (record c { sending = []; flushing = false })
            received
            (flushed ++ c.sending)
      Keeps-flush = record {
        ran = h.ran;
        bolt = h.bolt;
        waiting = h.waiting;
        pushed = cc (h.pushed, append_assoc flushed c.sending c.out_data);
      }

      Keeps-turn :
          (running flushing : Bool)
          → Keeps user first (record c { running = running; flushing = flushing }) received flushed
      Keeps-turn running flushing = record {
        ran = h.ran;
        bolt = h.bolt;
        waiting = h.waiting;
        pushed = h.pushed;
      }

      -- A step of a thread is one of these.
      abbrev pub IsKept : ChildImpl N → Type 0
      IsKept d = Keeps user first d received flushed

      pub Keeps-run_bolt : IsKept (run_bolt user c)
      unfolding run_bolt
      Keeps-run_bolt = elim (Bool-cases c.running) [
        | inl busy ↦ elim (List-cases c.processing) [
          | inl empty ↦ rw (run_bolt, busy, empty) (Keeps-turn false c.flushing)
          | inr (t, ts, e) ↦ rw (run_bolt, busy, e) (Keeps-run t ts e)
        ]
        | inr idle ↦ elim (List-cases c.in_data) [
          | inl empty ↦ elim (List-cases c.processing) [
            | inl nothing ↦ rw (run_bolt, idle, empty, nothing) h
            | inr (t, ts, e) ↦ rw (run_bolt, idle, empty, e) (Keeps-turn true c.flushing)
          ]
          | inr (t, ts, e) ↦ rw (run_bolt, idle, e) (Keeps-load t ts e)
        ]
      ]

    pub Keeps-process_request :
        (c : ChildImpl N) (received flushed : List Tuple) (r : SupervisorRequest)
        → Keeps user first c received flushed
        → Keeps user first (process_request r c).0 received flushed
    unfolding process_request configure_connections start_processing exit_child
    Keeps-process_request c received flushed (config_conns _) h = record {
      ran = h.ran;
      bolt = h.bolt;
      waiting = h.waiting;
      pushed = h.pushed;
    }
    Keeps-process_request c received flushed start h = record {
      ran = h.ran;
      bolt = h.bolt;
      waiting = h.waiting;
      pushed = h.pushed;
    }
    Keeps-process_request c received flushed kill h = record {
      ran = h.ran;
      bolt = h.bolt;
      waiting = h.waiting;
      pushed = h.pushed;
    }

    pub Keeps-send_step :
        (c d : ChildImpl N) (received flushed : List Tuple) (draws : ℕ → ℕ)
        → (sent : List (List (ℕ × List CraneTuple))) → send_step draws c ≡ some (d, sent)
        → Keeps user first c received flushed
        → Keeps user first d received (if c.flushing then flushed ++ c.sending else flushed)
    unfolding send_step
    Keeps-send_step c d received flushed draws sent run h = elim (Bool-cases c.flushing) [
      | inl busy ↦ elim (Option-cases (send_groups draws c.sending c.connection_groups)) [
        | inl stuck ↦ ground (arith, busy, stuck, run)
        | inr (out, ran) ↦
            let e : record c { sending = []; flushing = false } ≡ d =
              ground (arith, busy, ran, run) in
            rw busy (
              subst (λ x. Keeps user first x received (flushed ++ c.sending)) e
                (Keeps-flush c received flushed h))
      ]
      | inr idle ↦ rw idle (elim (List-cases c.out_data) [
        | inl empty ↦ elim (List-cases c.sending) [
          | inl nothing ↦
              let e : c ≡ d = ground (arith, idle, empty, nothing, run) in
              subst (λ x. Keeps user first x received flushed) e h
          | inr (t, ts, more) ↦
              let e : record c { flushing = true } ≡ d = ground (arith, idle, empty, more, run) in
              subst (λ x. Keeps user first x received flushed) e
                (Keeps-turn c received flushed h c.running true)
        ]
        | inr (t, ts, more) ↦
            let e : record c { out_data = ts; sending = c.sending ++ t ∷ [] } ≡ d =
              ground (arith, idle, more, run) in
            subst (λ x. Keeps user first x received flushed) e
              (Keeps-take c received flushed h t ts more)
      ])
    ]

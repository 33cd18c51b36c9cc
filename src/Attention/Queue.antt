-- ===== src/Attention/Queue.antt =====
-- What the manager keeps and publishes of the reports that it hears.
use zhongshu.Prelude.{
  ℕ, false, List, [], ◌∷◌, ◌++◌, append-nil, append_assoc, leb, length, length-append, Bool-cases,
  inl, inr, ◌≡◌, ◌≤◌, ◌∙◌, refl, sym, ap, subst, arith,
}
use zhongshu.Attention.Manager.{
  AttentionLevel, ignore, digest, notify, immediate, Report, AttentionEvent, AttentionManager,
  Received, worker_report, other_event, lagged, closed, remove_first, queue_report, process_at,
  process, spawn_loop,
}
use zhongshu.Attention.Latest.{latest, length-latest_le, latest_short, latest-append}

module _ {ℓ} {Content : Type ℓ} where
  -- The reports before the bus is closed.
  unfoldable pub heard : List (Received Content) → List (Report Content)
  heard [] = []
  heard (worker_report report ∷ later) = report ∷ heard later
  heard (other_event ∷ later) = heard later
  heard (lagged n ∷ later) = heard later
  heard (closed ∷ later) = []

  unfoldable pub digest_of : AttentionLevel → Report Content → List (Report Content)
  digest_of digest report = report ∷ []
  digest_of level report = []

  unfoldable pub digests : List (Report Content) → List (Report Content)
  digests [] = []
  digests (report ∷ reports) = digest_of report.attention report ++ digests reports

  unfoldable pub event_of : AttentionLevel → Report Content → List (AttentionEvent Content)
  event_of immediate report = AttentionEvent.interrupt report ∷ []
  event_of notify report = AttentionEvent.notify_user report ∷ []
  event_of level report = []

  unfoldable pub events : List (Report Content) → List (AttentionEvent Content)
  events [] = []
  events (report ∷ reports) = event_of report.attention report ++ events reports

  queue_report-latest :
      (n : ℕ) (report : Report Content) (queue : List (Report Content))
      → 1 ≤ n
      → length queue ≤ n
      → queue_report n report queue ≡ latest n (queue ++ (report ∷ []))
  unfolding queue_report remove_first latest
  queue_report-latest n report [] some_room h = elim (Bool-cases (leb n 0)) [
    | inl e ↦ rw (queue_report, e) (sym (latest_short n (report ∷ []) some_room))
    | inr e ↦ rw (queue_report, e) (sym (latest_short n (report ∷ []) some_room))
  ]
  queue_report-latest n report (old ∷ queue) some_room h =
      let size = length-append queue (report ∷ []) in
      elim (Bool-cases (leb n (length (old ∷ queue)))) [
        | inr e ↦
            rw (queue_report, e)
              (sym (latest_short n (old ∷ (queue ++ (report ∷ []))) (ground (arith, e, size))))
        | inl e ↦
            let over : leb (length (old ∷ (queue ++ (report ∷ [])))) n ≡ false =
              ground (arith, e, size) in
            rw (queue_report, e, latest, over)
              (sym (latest_short n (queue ++ (report ∷ [])) (ground (arith, h, size))))
      ]

  process_at-Keeps :
      (level : AttentionLevel) (report : Report Content) (m : AttentionManager Content)
      → 1 ≤ m.capacity
      → length m.digest_queue ≤ m.capacity
      → ((process_at level report m).digest_queue
          ≡ latest m.capacity (m.digest_queue ++ digest_of level report))
        × ((process_at level report m).published ≡ m.published ++ event_of level report)
        × ((process_at level report m).capacity ≡ m.capacity)
  unfolding process_at digest_of event_of
  process_at-Keeps immediate report m room h = (
    sym (
        ap (latest m.capacity) (append-nil m.digest_queue)
        ∙ latest_short m.capacity m.digest_queue h),
    refl,
    refl,
  )
  process_at-Keeps notify report m room h = (
    sym (
        ap (latest m.capacity) (append-nil m.digest_queue)
        ∙ latest_short m.capacity m.digest_queue h),
    refl,
    refl,
  )
  process_at-Keeps digest report m room h = (
    queue_report-latest m.capacity report m.digest_queue room h,
    sym (append-nil m.published),
    refl,
  )
  process_at-Keeps ignore report m room h = (
    sym (
        ap (latest m.capacity) (append-nil m.digest_queue)
        ∙ latest_short m.capacity m.digest_queue h),
    sym (append-nil m.published),
    refl,
  )

  -- If the queue has room for one report and is not over its capacity, then the loop of `spawn` leaves in
  -- it the latest digest reports, as many as the capacity allows, of those that were in it and those that
  -- came before the bus was closed, in their order; it publishes an interruption or a notification for each
  -- other report of these levels, in their order; and the queue is never over its capacity at the end.
  pub spawn_loop_keeps :
      (messages : List (Received Content)) (m : AttentionManager Content)
      → 1 ≤ m.capacity
      → length m.digest_queue ≤ m.capacity
      → ((spawn_loop messages m).digest_queue
          ≡ latest m.capacity (m.digest_queue ++ digests (heard messages)))
        × ((spawn_loop messages m).published ≡ m.published ++ events (heard messages))
        × (length (spawn_loop messages m).digest_queue ≤ m.capacity)
  unfolding spawn_loop heard digests events process
  spawn_loop_keeps [] m room h = (
    sym (
        ap (latest m.capacity) (append-nil m.digest_queue)
        ∙ latest_short m.capacity m.digest_queue h),
    sym (append-nil m.published),
    h,
  )
  spawn_loop_keeps (closed ∷ later) m room h = (
    sym (
        ap (latest m.capacity) (append-nil m.digest_queue)
        ∙ latest_short m.capacity m.digest_queue h),
    sym (append-nil m.published),
    h,
  )
  spawn_loop_keeps (other_event ∷ later) m room h = spawn_loop_keeps later m room h
  spawn_loop_keeps (lagged n ∷ later) m room h = spawn_loop_keeps later m room h
  spawn_loop_keeps (worker_report report ∷ later) m room h =
      let now : AttentionManager Content = process_at report.attention report m in
      let (queue, published, capacity) = process_at-Keeps report.attention report m room h in
      let added : List (Report Content) = digest_of report.attention report in
      let rest : List (Report Content) = digests (heard later) in
      let fits : length now.digest_queue ≤ now.capacity =
        subst (λ n. length now.digest_queue ≤ n) (sym capacity)
          (subst (λ q. length q ≤ m.capacity) (sym queue)
            (length-latest_le m.capacity (m.digest_queue ++ added))) in
      let (queue_after, published_after, short) =
        spawn_loop_keeps later now (subst (λ n. 1 ≤ n) (sym capacity) room) fits in
      (
        queue_after
            ∙ ap (λ n. latest n (now.digest_queue ++ rest)) capacity
            ∙ ap (λ q. latest m.capacity (q ++ rest)) queue
            ∙ latest-append m.capacity (m.digest_queue ++ added) rest
            ∙ ap (latest m.capacity) (append_assoc m.digest_queue added rest),
        published_after
            ∙ ap (λ e. e ++ events (heard later)) published
            ∙ append_assoc m.published (event_of report.attention report) (events (heard later)),
        subst (λ n. length (spawn_loop later now).digest_queue ≤ n) capacity short,
      )

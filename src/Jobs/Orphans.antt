-- ===== src/Jobs/Orphans.antt =====
-- No image that is still in use is deleted.
use avtosh.Common.{
  ℕ, zero, suc, ◌+◌, ◌*◌, ◌≤◌, ◌≡◌, refl, ◌∙◌, inl, inr, Bool, true, false, List, ◌∷◌, [], arith,
  ltb, leb, length, length-map, length-select_all, select_all, in_rows, Keyed, with_id, count-batch,
  count-ext, count-update, length-batch, ◌&&◌, All, Bool-cases,
}
use avtosh.Db.{Db, Clock}
use avtosh.Jobs.Cleanup.{
  CleanupEvent, Snapshot, CleanupRun, claim_cleanup_events, clean_path, clean_paths, close_event,
  clean_event, clean_events, clean_batches, run_image_cleanup, is_image_path_referenced,
  cleanup_batch, cleanup_due, event_key, event_order, cleanable, taken, counted_event, in_progress,
  finished, put_back, abandoned, mark_cleanup_event_processed, mark_cleanup_event_retry,
  mark_cleanup_event_failed,
}

module _ (storage : ℕ → Bool) (db : Db) (snapshots : List Snapshot) where
  -- Every deletion that was asked for is of a path that no row names.
  abbrev pub Safe : CleanupRun → Type 0
  Safe run = All (λ p. is_image_path_referenced db snapshots p ≡ false) run.requests

  path-Safe :
      (path : ℕ) (run : CleanupRun) (f : Bool)
      → Safe run
      → let r = clean_path storage (is_image_path_referenced db snapshots path) path (run, f) in
        Safe r.0 × (r.0.summary.events ≡ run.summary.events) × (r.0.outbox ≡ run.outbox)
  path-Safe path run f h = elim (Bool-cases (is_image_path_referenced db snapshots path)) [
    | inl e ↦ rw e (h, refl, refl)
    | inr e ↦ elim (Bool-cases (storage path)) [
      | inl s ↦ rw (e, s) ((e, h), refl, refl)
      | inr s ↦ rw (e, s) ((e, h), refl, refl)
    ]
  ]

  paths-Safe :
      (paths : List ℕ) (run : CleanupRun) (f : Bool)
      → Safe run
      → let r = clean_paths storage db snapshots paths (run, f) in
        Safe r.0 × (r.0.summary.events ≡ run.summary.events) × (r.0.outbox ≡ run.outbox)
  unfolding clean_paths
  paths-Safe [] run f h = (h, refl, refl)
  paths-Safe (path ∷ paths) run f h =
      let s = clean_path storage (is_image_path_referenced db snapshots path) path (run, f) in
      let a = path-Safe path run f h in
      let b = paths-Safe paths s.0 s.1 a.0 in (b.0, b.1 ∙ a.1, b.2 ∙ a.2)

  close-keeps :
      (clock : Clock) (e : CleanupEvent) (run : CleanupRun) (f : Bool)
      → let r = close_event clock e (run, f) in
        (r.requests ≡ run.requests) × (r.summary.events ≡ run.summary.events)
  close-keeps clock e run false = (refl, refl)
  close-keeps clock e run true = elim (Bool-cases (leb 5 e.attempt_count)) [
    | inl l ↦ rw l (refl, refl)
    | inr l ↦ rw l (refl, refl)
  ]

  close-Keyed :
      (clock : Clock) (e : CleanupEvent) (run : CleanupRun) (f : Bool)
      → Keyed event_key run.outbox
      → Keyed event_key (close_event clock e (run, f)).outbox
  unfolding mark_cleanup_event_processed mark_cleanup_event_retry mark_cleanup_event_failed
  close-Keyed clock e run false k i = omega (
    arith,
    k i,
    count-update (in_progress e.id) (with_id event_key i) (finished clock.db_now) run.outbox
        (λ x. refl),
  )
  close-Keyed clock e run true k i = elim (Bool-cases (leb 5 e.attempt_count)) [
    | inl l ↦ rw l (
        omega (
          arith,
          k i,
          count-update (in_progress e.id) (with_id event_key i) abandoned run.outbox (λ x. refl),
        ))
    | inr l ↦ rw l (
        omega (
          arith,
          k i,
          count-update (in_progress e.id) (with_id event_key i)
              (put_back (clock.js_now + 600000 * e.attempt_count)) run.outbox (λ x. refl),
        ))
  ]

  -- What the handling of `n` events keeps, from a safe run with keyed events.
  abbrev Goes : ℕ → CleanupRun → CleanupRun → Type 0
  Goes n run r = Safe r × Keyed event_key r.outbox × (r.summary.events ≡ run.summary.events + n)

  event-Goes :
      (clock : Clock) (e : CleanupEvent) (run : CleanupRun)
      → Safe run
      → Keyed event_key run.outbox
      → Goes 1 run (clean_event clock storage db snapshots e run)
  unfolding clean_event
  event-Goes clock e run h k =
      let s =
        clean_paths storage db snapshots e.cleanup_candidate_paths (counted_event run, false) in
      let a = paths-Safe e.cleanup_candidate_paths (counted_event run) false h in
      let b = close-keeps clock e s.0 s.1 in
      (rw (b.0) a.0, close-Keyed clock e s.0 s.1 (rw (a.2) k), omega (arith, a.1, b.1))

  events-Goes :
      (clock : Clock) (es : List CleanupEvent) (run : CleanupRun)
      → Safe run
      → Keyed event_key run.outbox
      → Goes (length es) run (clean_events clock storage db snapshots es run)
  unfolding clean_events
  events-Goes clock [] run h k = (h, k, omega arith)
  events-Goes clock (e ∷ es) run h k =
      let a = event-Goes clock e run h k in
      let b = events-Goes clock es (clean_event clock storage db snapshots e run) a.0 a.1 in
      (b.0, b.1, omega (arith, a.2, b.2))

  claim-most :
      (clock : Clock) (grace : ℕ) (events : List CleanupEvent)
      → Keyed event_key events
      → length (claim_cleanup_events clock 25 grace events).0 ≤ 25
  unfolding claim_cleanup_events
  claim-most clock grace events keyed = omega (
    arith,
    length-map taken
        (select_all (in_rows event_key (cleanup_due clock.db_now grace 25 events)) events),
    length-select_all (in_rows event_key (cleanup_due clock.db_now grace 25 events)) events,
    count-batch event_key event_order 25 (cleanable clock.db_now grace) events keyed (λ n. true)
        (λ n h. refl),
    length-batch event_key event_order 25 (cleanable clock.db_now grace) events,
    count-ext (λ n. in_rows event_key (cleanup_due clock.db_now grace 25 events) n && true)
        (in_rows event_key (cleanup_due clock.db_now grace 25 events)) events (λ n. ground arith),
  )

  claim-Keyed :
      (clock : Clock) (grace : ℕ) (events : List CleanupEvent)
      → Keyed event_key events
      → Keyed event_key (claim_cleanup_events clock 25 grace events).1
  unfolding claim_cleanup_events
  claim-Keyed clock grace events keyed i = omega (
    arith,
    keyed i,
    count-update (in_rows event_key (cleanup_due clock.db_now grace 25 events))
        (with_id event_key i) taken events (λ n. refl),
  )

  batches-Safe :
      (left : ℕ) (clocks : ℕ → Clock) (grace : ℕ) (run : CleanupRun)
      → Safe run
      → Keyed event_key run.outbox
      → let r = clean_batches left clocks grace storage db snapshots run in
        Safe r × (r.summary.events ≤ run.summary.events + left * 25)
  unfolding clean_batches
  batches-Safe zero clocks grace run h k = (h, omega arith)
  batches-Safe (suc left) clocks grace run h k =
      elim (Bool-cases (ltb (length claim.0) cleanup_batch)) [
        | inl e ↦ rw (clean_batches, e) (step.0, omega (arith, step.2, most))
        | inr e ↦
            rw (clean_batches, e)
              (let r = batches-Safe left (λ i. clocks (suc i)) grace done step.0 step.1 in
                (r.0, omega (arith, r.1, step.2, most)))
      ]
    where
      claim : List CleanupEvent × List CleanupEvent
      claim = claim_cleanup_events (clocks 0) 25 grace run.outbox

      start : CleanupRun
      start = record run { outbox = claim.1 }

      done : CleanupRun
      done = clean_events (clocks 0) storage db snapshots claim.0 start

      step : Goes (length claim.0) run done
      step = events-Goes (clocks 0) claim.0 start h (claim-Keyed (clocks 0) grace run.outbox k)

      most : length claim.0 ≤ 25
      most = claim-most (clocks 0) grace run.outbox k

  -- Whatever the storage does, the cleanup asks for the deletion only of paths that no listing
  -- image, no edit image and no frozen snapshot of an adjustment names, and handles at most 200
  -- events of a keyed outbox.
  pub run_image_cleanup-Safe :
      (clocks : ℕ → Clock) (grace : ℕ) (outbox : List CleanupEvent)
      → Keyed event_key outbox
      → let r = run_image_cleanup clocks grace storage db snapshots outbox in
        Safe r × (r.summary.events ≤ 200)
  unfolding run_image_cleanup
  run_image_cleanup-Safe clocks grace outbox keyed = batches-Safe 8 clocks grace _ tt keyed

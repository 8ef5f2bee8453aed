-- ===== src/Jobs/Cleanup.antt =====
-- Orphaned images: claimCleanupEvents, isImagePathReferenced and runImageCleanup. The storage
-- provider is a parameter: whether the deletion of a path succeeds.
use avtosh.Common.{
  ℕ, zero, suc, ◌+◌, ◌*◌, Bool, true, false, ◌&&◌, ◌||◌, Option, some, List, [], ◌∷◌, map, ltb, leb,
  ◌==◌, length, if◌then◌else◌, select_all, exists, update, batch, in_rows,
}
use avtosh.Db.{Db, Clock}
use avtosh.Db.Listings.{Image}

pub data OutboxStatus : Type 0 where
  pending processing processed failed : OutboxStatus

-- The columns of `outbox_events` that the worker reads and writes. Of the event's type it asks only
-- whether it is one of `CLEANUP_EVENT_TYPES`; the paths are those of the payload's list.
pub record CleanupEvent : Type 0 where
  pub id : ℕ
  pub is_cleanup_type : Bool
  pub status : OutboxStatus
  pub attempt_count : ℕ
  pub available_at : ℕ
  pub processed_at : Option ℕ
  pub created_at : ℕ
  pub cleanup_candidate_paths : List ℕ

-- Of a row of `moderation_adjustments`, the paths of its frozen `submitted_images`.
abbrev pub Snapshot : Type 0
Snapshot = List ℕ

abbrev pub cleanup_batch : ℕ
cleanup_batch = 25

abbrev pub cleanup_max_batches : ℕ
cleanup_max_batches = 8

abbrev pub cleanup_max_attempts : ℕ
cleanup_max_attempts = 5

abbrev pub cleanup_retry_base_seconds : ℕ
cleanup_retry_base_seconds = 600

abbrev pub is_pending_event : OutboxStatus → Bool
is_pending_event OutboxStatus.pending = true
is_pending_event _ = false

abbrev pub is_processing_event : OutboxStatus → Bool
is_processing_event OutboxStatus.processing = true
is_processing_event _ = false

abbrev pub has_paths : List ℕ → Bool
has_paths [] = false
has_paths (p ∷ ps) = true

abbrev pub cleanable : ℕ → ℕ → CleanupEvent → Bool
cleanable now grace_seconds e =
    e.is_cleanup_type
    && is_pending_event e.status
    && leb e.available_at now
    && leb (e.created_at + grace_seconds * 1000) now
    && has_paths e.cleanup_candidate_paths

abbrev pub event_key : CleanupEvent → ℕ
event_key e = e.id

abbrev pub event_order : CleanupEvent → ℕ
event_order e = e.created_at

abbrev pub cleanup_due : ℕ → ℕ → ℕ → List CleanupEvent → List CleanupEvent
cleanup_due now grace limit events = batch event_key event_order limit (cleanable now grace) events

abbrev pub taken : CleanupEvent → CleanupEvent
taken e = record e { status = OutboxStatus.processing; attempt_count = e.attempt_count + 1 }

unfoldable pub claim_cleanup_events :
    Clock → ℕ → ℕ → List CleanupEvent → List CleanupEvent × List CleanupEvent
claim_cleanup_events clock limit grace_seconds events = (
  map taken (select_all (in_rows event_key due) events),
  update (in_rows event_key due) taken events,
)
  where
    due : List CleanupEvent
    due = cleanup_due clock.db_now grace_seconds limit events

abbrev pub at_path : ℕ → Image → Bool
at_path storage_path i = i.storage_path == storage_path

-- Exact-value containment.
abbrev pub names_path : ℕ → Snapshot → Bool
names_path storage_path paths = exists (λ p. p == storage_path) paths

unfoldable pub is_image_path_referenced : Db → List Snapshot → ℕ → Bool
is_image_path_referenced db snapshots storage_path =
    exists (at_path storage_path) db.listing_images
    || exists (at_path storage_path) db.edit_images
    || exists (names_path storage_path) snapshots

abbrev pub in_progress : ℕ → CleanupEvent → Bool
in_progress id e = (e.id == id) && is_processing_event e.status

abbrev pub finished : ℕ → CleanupEvent → CleanupEvent
finished now e = record e { status = OutboxStatus.processed; processed_at = some now }

unfoldable pub mark_cleanup_event_processed : Clock → ℕ → List CleanupEvent → List CleanupEvent
mark_cleanup_event_processed clock id = update (in_progress id) (finished clock.db_now)

abbrev pub put_back : ℕ → CleanupEvent → CleanupEvent
put_back retry_at e = record e { status = OutboxStatus.pending; available_at = retry_at }

unfoldable pub mark_cleanup_event_retry : ℕ → ℕ → List CleanupEvent → List CleanupEvent
mark_cleanup_event_retry id retry_at = update (in_progress id) (put_back retry_at)

abbrev pub abandoned : CleanupEvent → CleanupEvent
abandoned e = record e { status = OutboxStatus.failed }

unfoldable pub mark_cleanup_event_failed : ℕ → List CleanupEvent → List CleanupEvent
mark_cleanup_event_failed id = update (in_progress id) abandoned

pub record ImageCleanupSummary : Type 0 where
  pub events : ℕ
  pub deleted : ℕ
  pub retained : ℕ
  pub retried : ℕ
  pub failed : ℕ

-- The run so far: the summary, the objects that the storage still has to lose, the outbox.
pub record CleanupRun : Type 0 where
  pub summary : ImageCleanupSummary
  pub requests : List ℕ
  pub outbox : List CleanupEvent

-- One candidate: asked for, or retained; and whether a deletion has failed.
abbrev pub clean_path : (ℕ → Bool) → Bool → ℕ → CleanupRun × Bool → CleanupRun × Bool
clean_path storage referenced path (run, failure) =
    if referenced
    then (
      record run { summary = record (run.summary) { retained = run.summary.retained + 1 } },
      failure,
    )
    else if storage path
    then (
      record run {
        summary = record (run.summary) { deleted = run.summary.deleted + 1 };
        requests = path ∷ run.requests;
      },
      failure,
    )
    else (record run { requests = path ∷ run.requests }, true)

unfoldable pub clean_paths :
    (ℕ → Bool) → Db → List Snapshot → List ℕ → CleanupRun × Bool → CleanupRun × Bool
clean_paths storage db snapshots [] r = r
clean_paths storage db snapshots (path ∷ paths) r =
    clean_paths storage db snapshots paths
      (clean_path storage (is_image_path_referenced db snapshots path) path r)

abbrev pub close_event : Clock → CleanupEvent → CleanupRun × Bool → CleanupRun
close_event clock e (run, failure) =
    if not_failed failure
    then record run { outbox = mark_cleanup_event_processed clock e.id run.outbox }
    else if leb cleanup_max_attempts e.attempt_count
    then record run {
      summary = record (run.summary) { failed = run.summary.failed + 1 };
      outbox = mark_cleanup_event_failed e.id run.outbox;
    }
    else record run {
      summary = record (run.summary) { retried = run.summary.retried + 1 };
      outbox =
          mark_cleanup_event_retry e.id
            (clock.js_now + cleanup_retry_base_seconds * 1000 * e.attempt_count) run.outbox;
    }
  where
    not_failed : Bool → Bool
    not_failed true = false
    not_failed false = true

abbrev pub counted_event : CleanupRun → CleanupRun
counted_event run = record run {
  summary = record (run.summary) { events = run.summary.events + 1 };
}

unfoldable pub clean_event :
    Clock → (ℕ → Bool) → Db → List Snapshot → CleanupEvent → CleanupRun → CleanupRun
unfolding clean_paths
clean_event clock storage db snapshots e run =
    close_event clock e
      (clean_paths storage db snapshots e.cleanup_candidate_paths (counted_event run, false))

unfoldable pub clean_events :
    Clock → (ℕ → Bool) → Db → List Snapshot → List CleanupEvent → CleanupRun → CleanupRun
clean_events clock storage db snapshots [] run = run
clean_events clock storage db snapshots (e ∷ es) run =
    clean_events clock storage db snapshots es (clean_event clock storage db snapshots e run)

-- The loop over batches that are left; a short batch, and an empty one, is the last.
unfoldable pub clean_batches :
    ℕ → (ℕ → Clock) → ℕ → (ℕ → Bool) → Db → List Snapshot → CleanupRun → CleanupRun
clean_batches zero clocks grace storage db snapshots run = run
clean_batches (suc left) clocks grace storage db snapshots run =
    elim (ltb (length claim.0) cleanup_batch) [
      | true ↦ done
      | false ↦ clean_batches left (λ i. clocks (suc i)) grace storage db snapshots done
    ]
  where
    claim : List CleanupEvent × List CleanupEvent
    claim = claim_cleanup_events (clocks 0) cleanup_batch grace run.outbox

    done : CleanupRun
    done = clean_events (clocks 0) storage db snapshots claim.0 (record run { outbox = claim.1 })

unfoldable pub run_image_cleanup :
    (ℕ → Clock) → ℕ → (ℕ → Bool) → Db → List Snapshot → List CleanupEvent → CleanupRun
unfolding clean_batches
run_image_cleanup clocks grace_seconds storage db snapshots outbox =
    clean_batches cleanup_max_batches clocks grace_seconds storage db snapshots (record {
      summary = record { events = 0; deleted = 0; retained = 0; retried = 0; failed = 0 };
      requests = [];
      outbox = outbox;
    })

-- ===== src/Lifecycle/Visibility.antt =====
-- Deactivation, the reactivation finalizer and reactivation
-- (src/services/listing-lifecycle.ts: deactivateListing, tryFinalizeSellerReactivation,
-- tryFinalizeSellerReactivationById, reactivateListing).
use avtosh.Common.{
  ℕ, ◌+◌, Bool, true, false, ◌||◌, not, Option, none, some, [], if◌then◌else◌, is_some, is_none,
  leb, ◌==◌,
}
use avtosh.Db.{Clock, Tx, ◌>>=◌, ◌>>◌, return, throw, insert_audit, insert_outbox_event}
use avtosh.Db.Errors.{ApiErrorCode}
use avtosh.Db.Listings.{
  Listing, EditRevision, is_active, is_expired, is_suspended, is_sold, is_edit_draft,
  is_edit_pending,
}
use avtosh.Db.Logs.{AuditAction, EventType}
use avtosh.Lifecycle.Store.{
  lock_owned_listing_for_lifecycle, lock_listing_for_lifecycle, mark_seller_deactivated,
  record_reactivation_request, clear_seller_deactivation, get_open_edit_revision,
  lock_open_edit_revision,
}
use avtosh.Lifecycle.Edits.{assert_lifecycle_visible}

-- A read that the code takes for present (`fresh!`): an empty one is a TypeError, which the
-- handler reports as INTERNAL_ERROR.
abbrev pub present : {A : Type 0} → Option A → Tx A
present none = throw ApiErrorCode.internal_error
present (some a) = return a

abbrev pub audit_of : Option ℕ → AuditAction → ℕ → Tx (Unit {0})
audit_of actor action listing_id =
    insert_audit (record { actor_user_id = actor; action = action; entity_id = listing_id })

abbrev pub event_of : EventType → ℕ → Tx (Unit {0})
event_of event_type listing_id =
    insert_outbox_event
      (record { event_type = event_type; aggregate_id = listing_id; cleanup_candidate_paths = [] })

pub record DeactivationResult : Type 0 where
  pub seller_deactivated_at : ℕ
  pub revision : ℕ
  pub already_deactivated : Bool

deactivate_active : Clock → ℕ → ℕ → ℕ → Listing → Tx DeactivationResult
unfolding mark_seller_deactivated lock_owned_listing_for_lifecycle
deactivate_active clock user_id listing_id expected_revision listing =
    if not (is_active listing.status)
    then throw ApiErrorCode.listing_lifecycle_conflict
    else if not (listing.revision == expected_revision)
    then throw ApiErrorCode.listing_revision_conflict
    else do
      changed ← mark_seller_deactivated clock listing_id expected_revision
      if not changed then throw ApiErrorCode.listing_revision_conflict else do
        audit_of (some user_id) AuditAction.listing_seller_deactivated listing_id
        event_of EventType.listing_seller_deactivated listing_id
        row ← lock_owned_listing_for_lifecycle listing_id user_id
        fresh ← present row
        since ← present fresh.seller_deactivated_at
        return (record {
          seller_deactivated_at = since;
          revision = fresh.revision;
          already_deactivated = false;
        })

deactivate_visible : Clock → ℕ → ℕ → ℕ → Listing → Option ℕ → Tx DeactivationResult
unfolding deactivate_active
deactivate_visible clock user_id listing_id expected_revision listing (some since) =
    return (record {
      seller_deactivated_at = since;
      revision = listing.revision;
      already_deactivated = true;
    })
deactivate_visible clock user_id listing_id expected_revision listing none =
    deactivate_active clock user_id listing_id expected_revision listing

unfoldable pub deactivate_listing : Clock → ℕ → ℕ → ℕ → Tx DeactivationResult
unfolding lock_owned_listing_for_lifecycle assert_lifecycle_visible deactivate_visible
deactivate_listing clock user_id listing_id expected_revision = do
  row ← lock_owned_listing_for_lifecycle listing_id user_id
  listing ← assert_lifecycle_visible row
  deactivate_visible clock user_id listing_id expected_revision listing
      listing.seller_deactivated_at

pub data ReactivationBlockReason : Type 0 where
  not_requested not_deactivated status_not_active expired open_edit_revision :
      ReactivationBlockReason

-- `finalized` is `reason === null`.
pub data FinalizeResult : Type 0 where
  finalized : FinalizeResult
  blocked : ReactivationBlockReason → FinalizeResult

-- `current_expires_at === null || current_expires_at.getTime() <= Date.now()`.
abbrev pub time_expired : ℕ → Option ℕ → Bool
time_expired now none = true
time_expired now (some t) = leb t now

finalize_closed : Clock → Listing → Tx FinalizeResult
unfolding clear_seller_deactivation
finalize_closed clock listing = do
  done ← clear_seller_deactivation clock listing.id
  if not done then return (FinalizeResult.blocked ReactivationBlockReason.status_not_active) else do
    audit_of (some listing.owner_id) AuditAction.listing_seller_reactivated listing.id
    event_of EventType.listing_seller_reactivated listing.id
    return FinalizeResult.finalized

unfoldable pub try_finalize_seller_reactivation : Clock → Listing → Tx FinalizeResult
unfolding get_open_edit_revision finalize_closed
try_finalize_seller_reactivation clock listing =
    if is_none listing.seller_reactivation_requested_at
    then return (FinalizeResult.blocked ReactivationBlockReason.not_requested)
    else if is_none listing.seller_deactivated_at
    then return (FinalizeResult.blocked ReactivationBlockReason.not_deactivated)
    else if not (is_active listing.status)
    then return (
        FinalizeResult.blocked (
          if is_expired listing.status
          then ReactivationBlockReason.expired
          else ReactivationBlockReason.status_not_active))
    else if time_expired clock.js_now listing.current_expires_at
    then return (FinalizeResult.blocked ReactivationBlockReason.expired)
    else do
      current ← get_open_edit_revision listing.id
      if is_some current
          then return (FinalizeResult.blocked ReactivationBlockReason.open_edit_revision)
          else finalize_closed clock listing

finalize_row : Clock → Option Listing → Tx FinalizeResult
unfolding try_finalize_seller_reactivation
finalize_row clock none = return (FinalizeResult.blocked ReactivationBlockReason.not_deactivated)
finalize_row clock (some listing) = try_finalize_seller_reactivation clock listing

unfoldable pub try_finalize_seller_reactivation_by_id : Clock → ℕ → Tx FinalizeResult
unfolding lock_listing_for_lifecycle finalize_row
try_finalize_seller_reactivation_by_id clock listing_id = do
  row ← lock_listing_for_lifecycle listing_id
  finalize_row clock row

pub data ReactivationOutcome : Type 0 where
  reactivated awaiting_moderation correction_required edit_incomplete renewal_required :
      ReactivationOutcome

pub record ReactivationResult : Type 0 where
  pub outcome : ReactivationOutcome
  pub reactivation_requested : Bool
  pub revision : ℕ

abbrev result : ReactivationOutcome → Bool → ℕ → ReactivationResult
result outcome requested revision = record {
  outcome = outcome;
  reactivation_requested = requested;
  revision = revision;
}

-- After the request is recorded: the open edit decides, or the finalizer runs.
settle : Clock → ℕ → Listing → Option EditRevision → Tx ReactivationResult
unfolding lock_listing_for_lifecycle try_finalize_seller_reactivation
settle clock listing_id listing (some current) = return (
    result
      (if is_edit_pending current.status
        then ReactivationOutcome.awaiting_moderation
        else ReactivationOutcome.correction_required)
      true (listing.revision + 1))
settle clock listing_id listing none = do
  row ← lock_listing_for_lifecycle listing_id
  fresh ← present row
  done ← try_finalize_seller_reactivation clock fresh
  finish fresh done
  where
    finish : Listing → FinalizeResult → Tx ReactivationResult
    finish fresh (FinalizeResult.blocked reason) =
        return (result ReactivationOutcome.renewal_required true fresh.revision)
    finish fresh FinalizeResult.finalized = do
      row ← lock_listing_for_lifecycle listing_id
      now_listing ← present row
      return (result ReactivationOutcome.reactivated false now_listing.revision)

is_draft_edit : Option EditRevision → Bool
is_draft_edit none = false
is_draft_edit (some current) = is_edit_draft current.status

request_and_settle : Clock → ℕ → ℕ → Listing → Option EditRevision → Tx ReactivationResult
unfolding record_reactivation_request settle
request_and_settle clock user_id listing_id listing current = do
  recorded ← record_reactivation_request clock listing_id listing.revision
  if not recorded then throw ApiErrorCode.listing_revision_conflict else do
    if is_none listing.seller_reactivation_requested_at
        then audit_of (some user_id) AuditAction.listing_seller_reactivation_requested listing_id
        else return tt
    settle clock listing_id listing current

reactivate_visible : Clock → ℕ → ℕ → ℕ → Listing → Tx ReactivationResult
unfolding lock_open_edit_revision request_and_settle is_draft_edit
reactivate_visible clock user_id listing_id expected_revision listing =
    if is_suspended listing.status
    then throw ApiErrorCode.listing_lifecycle_conflict
    else if is_sold listing.status || is_some listing.sold_at
    then throw ApiErrorCode.listing_lifecycle_conflict
    else if is_none listing.seller_deactivated_at
    then return (result ReactivationOutcome.reactivated false listing.revision)
    else if not (listing.revision == expected_revision)
    then throw ApiErrorCode.listing_revision_conflict
    else if is_expired listing.status || time_expired clock.js_now listing.current_expires_at
    then return (
        result ReactivationOutcome.renewal_required
          (is_some listing.seller_reactivation_requested_at) listing.revision)
    else do
      current ← lock_open_edit_revision listing_id
      if is_draft_edit current
          then return (result ReactivationOutcome.edit_incomplete false listing.revision)
          else request_and_settle clock user_id listing_id listing current

unfoldable pub reactivate_listing : Clock → ℕ → ℕ → ℕ → Tx ReactivationResult
unfolding lock_owned_listing_for_lifecycle assert_lifecycle_visible reactivate_visible
reactivate_listing clock user_id listing_id expected_revision = do
  row ← lock_owned_listing_for_lifecycle listing_id user_id
  listing ← assert_lifecycle_visible row
  reactivate_visible clock user_id listing_id expected_revision listing

-- ===== src/Moderation/Decide.antt =====
-- decide: the approval, the rejection and the correction request of a new listing
-- (src/services/moderation.ts). The reason and the note go into texts.
use avtosh.Common.{
  ℕ, ◌+◌, ◌*◌, Bool, true, false, not, Option, none, some, ◌==◌, if◌then◌else◌, is_none, is_some,
  ◌&&◌,
}
use avtosh.Db.{
  Clock, Tx, ◌>>=◌, ◌>>◌, read, return, throw, lift, require_some, guard, insert_status_history,
}
use avtosh.Db.Errors.{ApiErrorCode}
use avtosh.Db.Listings.{Listing, ListingStatus, is_pending_moderation}
use avtosh.Db.Logs.{EventType, ReasonCode}
use avtosh.Db.Moderation.{Adjustment, Decision, Review}
use avtosh.Db.Payments.{PeriodSource}
use avtosh.Db.Settings.{get_validity_days}
use avtosh.Content.Selections.{same_option}
use avtosh.Submission.Catalog.{Catalog}
use avtosh.Lifecycle.Store.{coalesce}
use avtosh.Lifecycle.Visibility.{event_of}
use avtosh.Payment.Periods.{ms_per_day, next_period_number, insert_listing_period}
use avtosh.Payment.Campaigns.{enroll_approved_listing_in_open_campaign}
use avtosh.Moderation.Claims.{lock_listing_for_moderation, require_owned_live_claim, release_claim}
use avtosh.Moderation.Adjustments.{lock_open_adjustment}
use avtosh.Moderation.Apply.{apply_adjustment_on_new_approval, discard_adjustment_on_decision}
use avtosh.Moderation.Reviews.{
  Activation, insert_review, find_matching_review, activate_listing,
  transition_from_pending_moderation, current_activation,
}

pub record DecisionResultDto : Type 0 where
  pub status : ListingStatus
  pub revision : ℕ
  pub review : Review
  pub activation : Option Activation

pub record DecisionInput : Type 0 where
  pub expected_revision : ℕ
  pub decision : Decision
  pub expected_adjustment_revision : Option ℕ

abbrev pub is_approved : Decision → Bool
is_approved Decision.approved = true
is_approved _ = false

unfoldable pub repeated_activation : ℕ → Listing → DecisionInput → Tx (Option Activation)
unfolding current_activation
repeated_activation listing_id listing input =
    elim (is_approved input.decision && is_some listing.published_at) [
      | true ↦ current_activation listing_id listing
      | false ↦ return none
    ]

-- The answer of a retry.
unfoldable pub repeated : ℕ → Listing → DecisionInput → Option Review → Tx DecisionResultDto
unfolding repeated_activation
repeated listing_id listing input none = throw ApiErrorCode.moderation_invalid_state
repeated listing_id listing input (some existing) = do
  activation ← repeated_activation listing_id listing input
  return (record {
    status = listing.status;
    revision = listing.revision;
    review = existing;
    activation = activation;
  })

-- The adjustment must address this pass, at the version that the moderator has seen.
unfoldable pub check_adjustment : Listing → Option ℕ → Option Adjustment → Tx (Unit {0})
check_adjustment listing expected none =
    guard (is_none expected) ApiErrorCode.moderation_adjustment_conflict
check_adjustment listing expected (some a) = do
  guard (is_none a.edit_revision_id) ApiErrorCode.moderation_adjustment_pending
  guard (a.submitted_listing_revision == listing.revision) ApiErrorCode.moderation_subject_changed
  guard (same_option expected (some a.revision)) ApiErrorCode.moderation_adjustment_conflict

unfoldable pub apply_open : Clock → Catalog → ℕ → Listing → Option Adjustment → Tx ℕ
unfolding apply_adjustment_on_new_approval
apply_open clock catalog moderator listing none = return listing.revision
apply_open clock catalog moderator listing (some adjustment) =
    apply_adjustment_on_new_approval clock catalog moderator listing adjustment

abbrev pub source_of : ℕ → PeriodSource
source_of period_number = if period_number == 1 then PeriodSource.initial else PeriodSource.renewal

-- `new Date()` is the process's time.
unfoldable pub activate : Clock → ℕ → Listing → ℕ → Tx Activation
unfolding next_period_number insert_listing_period activate_listing
activate clock listing_id listing activation_expected_revision = do
  configured ← read (λ db. get_validity_days db.settings)
  validity_days ← require_some ApiErrorCode.listing_configuration_error configured
  let expires_at = clock.js_now + validity_days * ms_per_day
  period_number ← next_period_number listing_id
  insert_listing_period listing_id period_number (source_of period_number) clock.js_now expires_at
      none
  done ← activate_listing listing_id activation_expected_revision clock.js_now expires_at
  guard done ApiErrorCode.moderation_invalid_state
  enroll_approved_listing_in_open_campaign clock listing_id
  return (record {
    published_at = coalesce listing.published_at clock.js_now;
    current_expires_at = expires_at;
    period_number = period_number;
  })

unfoldable pub discard_open_on_decision : Clock → ℕ → ℕ → Option Adjustment → Tx (Unit {0})
unfolding discard_adjustment_on_decision
discard_open_on_decision clock moderator listing_id none = return tt
discard_open_on_decision clock moderator listing_id (some a) =
    discard_adjustment_on_decision clock moderator listing_id a

unfoldable pub turn_down :
    Clock → ℕ → ℕ → Listing → ListingStatus → Option Adjustment → Tx (Option Activation)
unfolding transition_from_pending_moderation discard_open_on_decision
turn_down clock moderator listing_id listing to_status adjustment = do
  done ← transition_from_pending_moderation listing_id listing.revision to_status
  guard done ApiErrorCode.moderation_invalid_state
  discard_open_on_decision clock moderator listing_id adjustment
  return none

abbrev pub status_after : Decision → ListingStatus
status_after Decision.approved = ListingStatus.active
status_after Decision.rejected = ListingStatus.rejected
status_after Decision.correction_requested = ListingStatus.correction_required

abbrev pub decision_event : Decision → EventType
decision_event Decision.approved = EventType.listing_activated
decision_event Decision.rejected = EventType.listing_rejected
decision_event Decision.correction_requested = EventType.listing_correction_requested

unfoldable pub carry_out :
    Clock → Catalog → ℕ → ℕ → Listing → Option Adjustment → Decision → Tx (Option Activation)
unfolding turn_down
carry_out clock catalog moderator listing_id listing adjustment Decision.approved = do
  revision ← apply_open clock catalog moderator listing adjustment
  activation ← activate clock listing_id listing revision
  return (some activation)
carry_out clock catalog moderator listing_id listing adjustment decision =
    turn_down clock moderator listing_id listing (status_after decision) adjustment

unfoldable pub decide_pending :
    Clock → Catalog → ℕ → ℕ → DecisionInput → Listing → Tx DecisionResultDto
unfolding lock_open_adjustment insert_review release_claim
decide_pending clock catalog moderator listing_id input listing = do
  guard (listing.revision == input.expected_revision) ApiErrorCode.listing_revision_conflict
  claim ← (λ db. lift (require_owned_live_claim clock listing_id moderator db) db)
  open_adjustment ← lock_open_adjustment listing_id
  check_adjustment listing input.expected_adjustment_revision open_adjustment
  review ←
      insert_review clock listing_id moderator listing.revision input.decision none none
        open_adjustment
  activation ← carry_out clock catalog moderator listing_id listing open_adjustment input.decision
  insert_status_history (record {
    listing_id = listing_id;
    from_status = ListingStatus.pending_moderation;
    to_status = status_after input.decision;
    actor_user_id = some moderator;
    reason_code = ReasonCode.moderation;
  })
  event_of (decision_event input.decision) listing_id
  release_claim clock claim.id
  return (record {
    status = status_after input.decision;
    revision = listing.revision;
    review = review;
    activation = activation;
  })

unfoldable pub decide_row :
    Clock → Catalog → ℕ → ℕ → DecisionInput → Option Listing → Tx DecisionResultDto
unfolding find_matching_review repeated decide_pending
decide_row clock catalog moderator listing_id input none = throw ApiErrorCode.listing_not_found
decide_row clock catalog moderator listing_id input (some listing) =
    if not (is_pending_moderation listing.status)
    then (do
      existing ← find_matching_review listing_id moderator input.expected_revision input.decision
      repeated listing_id listing input existing)
    else decide_pending clock catalog moderator listing_id input listing

unfoldable pub decide : Clock → Catalog → ℕ → ℕ → DecisionInput → Tx DecisionResultDto
unfolding lock_listing_for_moderation decide_row
decide clock catalog moderator listing_id input = do
  row ← lock_listing_for_moderation listing_id
  decide_row clock catalog moderator listing_id input row

-- ===== src/Lifecycle/Management.antt =====
-- deriveOwnerManagement: what an owner is offered for a listing (src/lib/seller/management.ts), and
-- its agreement with the operations behind it.
use avtosh.Common.{
  ℕ, ◌≡◌, refl, sym, ◌∙◌, inl, inr, Bool, true, false, ◌&&◌, ◌||◌, not, Option, none, some, leb,
  if◌then◌else◌, is_some, is_none, arith, Result, ok, err, Bool-cases, Option-cases, select,
  exists-select, select_holds,
}
use avtosh.Db.{Db, Clock}
use avtosh.Db.Errors.{ApiErrorCode}
use avtosh.Db.Listings.{
  Listing, ListingStatus, EditStatus, is_active, is_expired, is_suspended, is_sold, is_open,
}
use avtosh.Lifecycle.Store.{open_of, of_owner}
use avtosh.Lifecycle.Edits.{get_or_create_edit_revision, editable_lifecycle}
use avtosh.Lifecycle.Visibility.{deactivate_listing}
use avtosh.Lifecycle.Behaviour.{Owned, owner_row, deactivate_listing_hides}

pub data OwnerPrimaryState : Type 0 where
  suspended sold expired deactivated active pre_publication : OwnerPrimaryState

-- The edit to continue; closed ones other than an approved one are passed as `none`.
pub record OwnerManagementInput : Type 0 where
  pub status : ListingStatus
  pub current_expires_at : Option ℕ
  pub seller_deactivated_at : Option ℕ
  pub reactivation_requested : Bool
  pub edit_status : Option EditStatus

pub data OwnerEditAction : Type 0 where
  edit continue view fix : OwnerEditAction

pub data OwnerRenewalAction : Type 0 where
  renew renew_activate hidden : OwnerRenewalAction

pub record OwnerManagement : Type 0 where
  pub primary : OwnerPrimaryState
  pub effective_expired : Bool
  pub can_edit : Bool
  pub can_deactivate : Bool
  pub can_reactivate : Bool
  pub awaiting_activation : Bool
  pub edit_action : Option OwnerEditAction
  pub renewal : Option OwnerRenewalAction

abbrev pub passed : ℕ → Option ℕ → Bool
passed now none = false
passed now (some t) = leb t now

abbrev pub primary_state : ListingStatus → Bool → Bool → OwnerPrimaryState
primary_state status late off =
    if is_suspended status
    then OwnerPrimaryState.suspended
    else if is_sold status
    then OwnerPrimaryState.sold
    else if is_expired status || (is_active status && late)
    then OwnerPrimaryState.expired
    else if is_active status && off
    then OwnerPrimaryState.deactivated
    else if is_active status
    then OwnerPrimaryState.active
    else OwnerPrimaryState.pre_publication

abbrev pub edits_from : OwnerPrimaryState → Bool
edits_from OwnerPrimaryState.active = true
edits_from OwnerPrimaryState.deactivated = true
edits_from OwnerPrimaryState.expired = true
edits_from _ = false

abbrev pub is_active_state : OwnerPrimaryState → Bool
is_active_state OwnerPrimaryState.active = true
is_active_state _ = false

abbrev pub is_hidden_state : OwnerPrimaryState → Bool
is_hidden_state OwnerPrimaryState.deactivated = true
is_hidden_state _ = false

abbrev pub open_status : Option EditStatus → Bool
open_status none = false
open_status (some s) = is_open s

abbrev pub edit_action_of : Option EditStatus → OwnerEditAction
edit_action_of (some EditStatus.edit_draft) = OwnerEditAction.continue
edit_action_of (some EditStatus.pending_moderation) = OwnerEditAction.view
edit_action_of (some EditStatus.correction_required) = OwnerEditAction.fix
edit_action_of _ = OwnerEditAction.edit

abbrev pub is_correction : Option EditStatus → Bool
is_correction (some EditStatus.correction_required) = true
is_correction _ = false

abbrev pub after_edit : Option EditStatus → OwnerRenewalAction
after_edit (some EditStatus.edit_draft) = OwnerRenewalAction.hidden
after_edit (some EditStatus.pending_moderation) = OwnerRenewalAction.hidden
after_edit (some EditStatus.correction_required) = OwnerRenewalAction.hidden
after_edit (some EditStatus.approved) = OwnerRenewalAction.renew_activate
after_edit _ = OwnerRenewalAction.renew

abbrev pub renewal_action : OwnerPrimaryState → Option EditStatus → Option OwnerRenewalAction
renewal_action OwnerPrimaryState.expired edit_status = some (after_edit edit_status)
renewal_action _ edit_status = none

unfoldable pub derive_owner_management : OwnerManagementInput → ℕ → OwnerManagement
derive_owner_management input now = record {
  primary = primary;
  effective_expired = is_active input.status && passed now input.current_expires_at;
  can_edit = edits_from primary;
  can_deactivate = is_active_state primary;
  can_reactivate =
      is_hidden_state primary
      && not input.reactivation_requested
      && not (is_correction input.edit_status);
  awaiting_activation =
      is_hidden_state primary && input.reactivation_requested && open_status input.edit_status;
  edit_action = if edits_from primary then some (edit_action_of input.edit_status) else none;
  renewal = renewal_action primary input.edit_status;
}
  where
    primary : OwnerPrimaryState
    primary =
        primary_state input.status (passed now input.current_expires_at)
          (is_some input.seller_deactivated_at)

-- The input of the owner's card (src/services/my-listings.ts).
abbrev pub input_of : Listing → Option EditStatus → OwnerManagementInput
input_of l edit_status = record {
  status = l.status;
  current_expires_at = l.current_expires_at;
  seller_deactivated_at = l.seller_deactivated_at;
  reactivation_requested = is_some l.seller_reactivation_requested_at;
  edit_status = edit_status;
}

abbrev pub succeeds : {A : Type 0} → Result ApiErrorCode A → Bool
succeeds (ok a) = true
succeeds (err e) = false

edits_by_status :
    (s : ListingStatus) (late off : Bool)
    → edits_from (primary_state s late off) ≡ editable_lifecycle s
edits_by_status s late off = ground arith

active_by_status :
    (s : ListingStatus) (late : Bool)
    → is_active_state (primary_state s late false) ≡ (not late && is_active s)
active_by_status s late = ground arith

module _ (clock : Clock) (db : Db) (user i : ℕ) (l : Listing) (owned : Owned db user i l)
    (edit_status : Option EditStatus) where
  edit-succeeds : succeeds (get_or_create_edit_revision user i db) ≡ editable_lifecycle l.status
  unfolding get_or_create_edit_revision
  edit-succeeds = elim (Option-cases (select (open_of i) db.revisions)) [
    | inl z ↦ ground (
      arith,
      owner_row db user i l owned,
      owned.kept,
      owned.not_deleted,
      z,
      exists-select (open_of i) db.revisions,
      select_holds (of_owner i user) db.listings (owner_row db user i l owned),
    )
    | inr (r, z) ↦ ground (arith, owner_row db user i l owned, owned.kept, owned.not_deleted, z)
  ]

  deactivation-succeeds :
      l.seller_deactivated_at ≡ none
      → succeeds (deactivate_listing clock user i l.revision db) ≡ is_active l.status
  deactivation-succeeds visible = elim (Bool-cases (is_active l.status)) [
    | inl a ↦
        rw (a, (deactivate_listing_hides clock db user i l owned (ground (arith, a)) visible).0)
          refl
    | inr a ↦ refused a
  ]
    where
      refused :
          is_active l.status ≡ false
          → succeeds (deactivate_listing clock user i l.revision db) ≡ is_active l.status
      refused a =
          unfold deactivate_listing in
          ground (arith, owner_row db user i l owned, owned.kept, owned.not_deleted, a, visible)

  -- What an owner is offered for a listing that is not deleted agrees with the operations. Whatever
  -- its edit, to edit is offered exactly where starting or continuing an edit would succeed. To
  -- deactivate is offered exactly where that would succeed, on a listing that is not hidden yet and
  -- whose term has not passed.
  pub derive_owner_management_agrees :
      let m = derive_owner_management (input_of l edit_status) clock.js_now in
      (m.can_edit ≡ succeeds (get_or_create_edit_revision user i db))
      × (m.can_deactivate ≡ (
          is_none l.seller_deactivated_at
          && not (passed clock.js_now l.current_expires_at)
          && succeeds (deactivate_listing clock user i l.revision db)))
  unfolding derive_owner_management
  derive_owner_management_agrees = (
    edits_by_status l.status (passed clock.js_now l.current_expires_at)
          (is_some l.seller_deactivated_at)
        ∙ sym edit-succeeds,
    elim (Option-cases l.seller_deactivated_at) [
      | inr (t, v) ↦ ground (arith, v)
      | inl v ↦ ground (
        arith,
        v,
        deactivation-succeeds v,
        active_by_status l.status (passed clock.js_now l.current_expires_at),
      )
    ],
  )

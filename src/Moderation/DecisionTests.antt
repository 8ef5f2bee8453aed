-- ===== src/Moderation/DecisionTests.antt =====
-- A moderator works on a submission and decides on it: the theorems at these.
use avtosh.Common.{
  insert_by, select_latest, ℕ, update, All, select_all, sort_by, ◌≡◌, refl, ◌≤◌, some, none, true,
  false, List, [], ◌∷◌, arith, select, count, exists, ok, ◌*◌, ◌+◌, max_of,
}
use avtosh.Db.{Db, after}
use avtosh.Db.Listings.{Image, Listing, ListingStatus}
use avtosh.Db.Moderation.{
  Adjustment, AdjustmentStatus, ImagePlanRowEntry, Decision, ModerationClaim, SubmittedImage,
}
use avtosh.Db.Settings.{get_validity_days}
use avtosh.Samples.{car, no_rows, shown, clock, late, everything, same_texts, no_change}
use avtosh.Lifecycle.Store.{of_id}
use avtosh.Payment.Periods.{ms_per_day, period_of}
use avtosh.Moderation.Plan.{
  AdjustmentImagePlanEntry, normalize_image_plan, plan_input, known, is_kept, is_kept_primary,
}
use avtosh.Moderation.Adjustments.{open_adjustment_of}
use avtosh.Moderation.Save.{
  SubjectInput, resolve_current_subject, AdjustmentSaveInput, save_adjustment,
}
use avtosh.Moderation.Frozen.{SaveOp, Keeps, OneOpen, run_saves, run_saves-Frozen}
use avtosh.Moderation.Saved.{Untouched}
use avtosh.Moderation.Decide.{
  DecisionInput, DecisionResultDto, decide, check_adjustment, carry_out, activate, apply_open,
}
use avtosh.Moderation.Reviews.{new_review, with_status, activated_listing, same_review}
use avtosh.Moderation.TurnDown.{decide_turns_down}
use avtosh.Moderation.Approves.{ApprovedAs, first_period, decide_approves}
use avtosh.Moderation.Retry.{decide_again}
use avtosh.Moderation.Coverage.{from, normalize_image_plan_covers, normalize_image_plan_again}
use avtosh.Moderation.Apply.{apply_adjustment_on_new_approval}
use avtosh.Moderation.Claims.{require_owned_live_claim}
use avtosh.Payment.Campaigns.{enroll_approved_listing_in_open_campaign}
use avtosh.Content.Checks.{assert_adjusted_content_approvable, approved_content_set}
use avtosh.Content.Adjusted.{resolve_adjusted_data}
use avtosh.Db.Settings.{get_submission_settings}

abbrev listing : Listing
listing = record shown {
  status = ListingStatus.pending_moderation;
  current_expires_at = none;
  published_at = none;
}

abbrev photo : ℕ → Image
photo id = record {
  id = id;
  owner = 1;
  storage_path = id + 100;
  sort_order = id;
  is_primary = false;
}

abbrev claim : ModerationClaim
claim = record {
  id = 60;
  listing_id = 1;
  moderator_id = 20;
  claimed_at = 40;
  expires_at = 90;
  released_at = none;
}

-- The minimum of images is one.
abbrev queued : Db
queued = record no_rows {
  listings = listing ∷ [];
  listing_features = (1, 30) ∷ [];
  listing_images = record (photo 1) { is_primary = true } ∷ photo 2 ∷ [];
  claims = claim ∷ [];
  settings = record (no_rows.settings) { image_min = some 1 };
}

abbrev subject : SubjectInput
subject = record {
  expected_listing_revision = 3;
  edit_revision_id = none;
  expected_edit_revision = none;
}

-- The first image goes, the second becomes the primary one.
abbrev plan : List AdjustmentImagePlanEntry
plan =
    record { source_id = 2; removed = false; is_primary = true }
    ∷ record { source_id = 1; removed = true; is_primary = false }
    ∷ []

abbrev first : AdjustmentSaveInput
first = record {
  subject = subject;
  expected_adjustment_revision = none;
  content = record no_change { year = some (some 2016) };
  image_plan = plan;
}

abbrev saves : List SaveOp
saves =
    SaveOp.save clock 20 1 first
    ∷ SaveOp.save clock 20 1
        (record first { expected_adjustment_revision = some 1; content = no_change })
    ∷ SaveOp.discard late 21 1 2
    ∷ []

abbrev frozen_images : List SubmittedImage
frozen_images =
    record { source_id = 1; storage_path = 101; sort_order = 1; is_primary = true }
    ∷ record { source_id = 2; storage_path = 102; sort_order = 2; is_primary = false }
    ∷ []

abbrev row_plan : List ImagePlanRowEntry
row_plan =
    record { source_id = 2; removed = false; sort_order = 0; is_primary = true }
    ∷ record { source_id = 1; removed = true; sort_order = 1; is_primary = false }
    ∷ []

-- After the first save.
abbrev adjustment : Adjustment
adjustment = record {
  id = 100;
  listing_id = 1;
  edit_revision_id = none;
  status = AdjustmentStatus.opened;
  submitted_listing_revision = 3;
  submitted_edit_revision_no = none;
  submitted_data = record { content = record car { no_accident = none }; feature_ids = 30 ∷ [] };
  submitted_images = frozen_images;
  adjusted_data = record {
    content = record car { year = some 2016; no_accident = none };
    feature_ids = 30 ∷ [];
  };
  image_plan = row_plan;
  moderator_id = 20;
  revision = 1;
  discarded_at = none;
  applied_at = none;
}

abbrev worked_on : Db
worked_on = record queued { adjustments = adjustment ∷ []; next_id = 101 }

first_saved :
    (after queued (save_adjustment clock everything same_texts 20 1 first queued)).adjustments
    ≡ worked_on.adjustments
unfolding save_adjustment require_owned_live_claim resolve_adjusted_data normalize_image_plan
    get_submission_settings select select_all sort_by exists resolve_current_subject insert_by count
first_saved = refl

accepted : normalize_image_plan plan frozen_images 1 ≡ ok row_plan
unfolding normalize_image_plan exists count
accepted = refl

normalize_image_plan_covers_example :
    ((j : ℕ) → known frozen_images j ≡ true → count (from j) row_plan ≡ 1)
    × ((j : ℕ) → known frozen_images j ≡ false → count (from j) row_plan ≡ 0)
    × (1 ≤ count is_kept row_plan)
    × (1 ≤ count is_kept row_plan → count is_kept_primary row_plan ≡ 1)
    × All (λ e. e.removed ≡ true → e.is_primary ≡ false) row_plan
normalize_image_plan_covers_example = normalize_image_plan_covers frozen_images 1 plan accepted

normalize_image_plan_again_example :
    (plan_input row_plan ≡ plan)
    × (normalize_image_plan (plan_input row_plan) frozen_images 1 ≡ ok row_plan)
normalize_image_plan_again_example = normalize_image_plan_again frozen_images 1 plan accepted

queued-OneOpen : OneOpen queued.adjustments
unfolding count
queued-OneOpen j = omega arith

run_saves-Frozen_example :
    Untouched queued (run_saves everything same_texts saves queued)
    × Keeps queued.adjustments (run_saves everything same_texts saves queued).adjustments
    × OneOpen (run_saves everything same_texts saves queued).adjustments
run_saves-Frozen_example = run_saves-Frozen everything same_texts saves queued queued-OneOpen

worked_on_found : select (of_id 1) worked_on.listings ≡ some listing
unfolding select
worked_on_found = refl

worked_on-OneOpen : count (open_adjustment_of 1) worked_on.adjustments ≤ 1
unfolding count
worked_on-OneOpen = omega arith

abbrev no : DecisionInput
no = record {
  expected_revision = 3;
  decision = Decision.rejected;
  expected_adjustment_revision = some 1;
}

abbrev refusal : DecisionResultDto
refusal = record {
  status = ListingStatus.rejected;
  revision = 3;
  review = new_review 101 50 1 20 3 Decision.rejected none none (some adjustment);
  activation = none;
}

abbrev refused : Db
refused = after worked_on (decide clock everything 20 1 no worked_on)

refuses : decide clock everything 20 1 no worked_on ≡ ok (refusal, refused)
unfolding decide require_owned_live_claim select update check_adjustment exists carry_out
refuses = refl

decide_turns_down_example :
    (select (of_id 1) refused.listings ≡ some (with_status ListingStatus.rejected listing))
    × (exists (open_adjustment_of 1) refused.adjustments ≡ false)
    × (refused.listing_features ≡ worked_on.listing_features)
    × (refused.listing_images ≡ worked_on.listing_images)
    × (refused.periods ≡ worked_on.periods)
    × (refused.promotions ≡ worked_on.promotions)
    × (refused.payments ≡ worked_on.payments)
decide_turns_down_example =
    decide_turns_down clock everything 20 1 no worked_on listing worked_on_found refl refl
      worked_on-OneOpen refuses

abbrev yes : DecisionInput
yes = record {
  expected_revision = 3;
  decision = Decision.approved;
  expected_adjustment_revision = some 1;
}

abbrev approval : DecisionResultDto
approval = record {
  status = ListingStatus.active;
  revision = 3;
  review = new_review 101 50 1 20 3 Decision.approved none none (some adjustment);
  activation =
      some (record {
        published_at = 51;
        current_expires_at = 51 + 30 * ms_per_day;
        period_number = 1;
      });
}

abbrev approved : Db
approved = after worked_on (decide clock everything 20 1 yes worked_on)

approves : decide clock everything 20 1 yes worked_on ≡ ok (approval, approved)
unfolding decide activate apply_open require_owned_live_claim
    enroll_approved_listing_in_open_campaign apply_adjustment_on_new_approval select update
    check_adjustment exists carry_out get_submission_settings assert_adjusted_content_approvable
    count normalize_image_plan plan_input sort_by insert_by approved_content_set select_all
    select_latest max_of
approves = refl

decide_approves_example :
    (m : Listing) × (days : ℕ) × (id : ℕ) × ApprovedAs everything
      (select (open_adjustment_of 1) worked_on.adjustments)
      listing
      m
    × (get_validity_days worked_on.settings ≡ some days)
    × (select (of_id 1) approved.listings ≡ some (activated_listing 51 (51 + days * ms_per_day) m))
    × (approved.periods
        ≡ first_period clock id 1
            (max_of (period_of 1) (λ p. p.period_number) worked_on.periods + 1)
            days
          ∷ worked_on.periods)
    × (approval.revision ≡ listing.revision)
decide_approves_example =
    decide_approves clock everything 20 1 yes worked_on listing worked_on_found refl refl refl
      approves

decide_again_example :
    (r' : DecisionResultDto) × (decide late everything 20 1 yes approved ≡ ok (r', approved))
    × (same_review 1 20 3 Decision.approved r'.review ≡ true)
decide_again_example =
    decide_again clock everything 20 1 yes worked_on listing worked_on_found refl refl approves late

-- ===== src/Submission/Results.antt =====
-- The results of a submission, of its repetition and of a resubmission.
use avtosh.Common.{
  ℕ, ◌+◌, ◌≤◌, ◌≡◌, refl, Bool, true, false, if◌then◌else◌, none, some, arith, select, leb, ok,
  select_holds, select-update, exists_of_select,
}
use avtosh.Db.{Db, Clock, after}
use avtosh.Db.Listings.{Listing, ListingStatus}
use avtosh.Db.Settings.{SubmissionSettings, get_submission_settings}
use avtosh.Db.Payments.{Publication, BillingType}
use avtosh.Lifecycle.Store.{of_owner}
use avtosh.Submission.Store.{
  publication_of, from_draft, submitted_as, returned, count_publications, fee_intent,
  count_listing_images, count_primary_images,
}
use avtosh.Submission.Catalog.{Catalog, missing_field, assert_complete, revalidate_catalog}
use avtosh.Submission.Submit.{
  ListingQuotaDto, SubmissionResultDto, NextAction, get_listing_quota, submit_listing,
}
use avtosh.Submission.Resubmit.{ResubmissionResultDto, resubmit_listing}
use avtosh.Submission.Numbering.{Numbered, max_of-count}

-- What a submission asks of a draft.
pub record Submittable (catalog : Catalog) (db : Db) (min : ℕ) (l : Listing) (e : ℕ) : Type 0 where
  pub draft : l.status ≡ ListingStatus.draft
  pub current : l.revision ≡ e
  pub complete : assert_complete db l min ≡ ok tt
  pub valid : revalidate_catalog catalog db l ≡ ok tt

-- What the seller is told of submission `number`.
abbrev pub outcome : ℕ → ℕ → ℕ → Bool → SubmissionSettings → Listing → SubmissionResultDto
outcome id user number true s l = record {
  status = ListingStatus.pending_moderation;
  revision = l.revision;
  number = number;
  billing_type = BillingType.free;
  payment = none;
  next_action = NextAction.to_moderation;
}
outcome id user number false s l = record {
  status = ListingStatus.payment_required;
  revision = l.revision;
  number = number;
  billing_type = BillingType.paid;
  payment = some (fee_intent id user l.id s.fee_minor);
  next_action = NextAction.to_payment;
}

abbrev pub submitted_row : Clock → Bool → Listing → Listing
submitted_row clock true l = submitted_as ListingStatus.pending_moderation true clock.db_now l
submitted_row clock false l = record l { status = ListingStatus.payment_required }

module _ (catalog : Catalog) (clock : Clock) (db : Db) (user i e : ℕ) where
  -- A submission of a listing without a publication goes through only where the listing is a
  -- draft of the caller at the expected revision, no required field is null, there are as many
  -- images as the settings ask for, exactly one is the primary, and the catalog accepts it.
  pub submit_listing_checks :
      {r : SubmissionResultDto} {db' : Db} {s : SubmissionSettings} {l : Listing}
      → submit_listing catalog clock user i e db ≡ ok (r, db')
      → get_submission_settings db.settings ≡ some s
      → select (of_owner i user) db.listings ≡ some l
      → select (publication_of i) db.publications ≡ none
      → (l.status ≡ ListingStatus.draft)
        × (l.revision ≡ e)
        × (missing_field l.content ≡ false)
        × (s.image_min ≤ count_listing_images l.id db)
        × (count_primary_images l.id db ≡ 1)
        × (revalidate_catalog catalog db l ≡ ok tt)
  unfolding submit_listing assert_complete
  submit_listing_checks h hs hl hp = ground arith

  -- A first submission that succeeds, where publications are numbered consecutively, does what the
  -- quota said just before: it takes the number of the next publication, and asks for the listing
  -- fee exactly where the quota says that this one is paid. Where it is paid, the intent carries
  -- the quota's fee; where it is free, there is none.
  pub submit_listing_follows_quota :
      {q : ListingQuotaDto} {d : Db} {r : SubmissionResultDto} {db' : Db}
      → Numbered db
      → get_listing_quota user db ≡ ok (q, d)
      → select (publication_of i) db.publications ≡ none
      → submit_listing catalog clock user i e db ≡ ok (r, db')
      → (r.number ≡ q.next_publication_number)
        × (r.next_action ≡ (
            if q.next_publication_is_paid then NextAction.to_payment else NextAction.to_moderation))
        × (r.payment ≡ (
            if q.next_publication_is_paid
            then some (fee_intent db.next_id user i q.listing_fee_minor)
            else none))
  unfolding submit_listing get_listing_quota
  submit_listing_follows_quota n hq hp h =
      ground (arith, max_of-count user db.publications n.consecutive)

  -- A submission that succeeded can be repeated, at any time, with any expected revision and any
  -- catalog: the repetition returns the same result and changes nothing.
  pub submit_listing_again :
      {r : SubmissionResultDto} {db' : Db}
      → submit_listing catalog clock user i e db ≡ ok (r, db')
      → (catalog' : Catalog) (clock' : Clock) (e' : ℕ)
      → submit_listing catalog' clock' user i e' db' ≡ ok (r, db')
  unfolding submit_listing select
  submit_listing_again {r} {db'} h catalog' clock' e' = grind (
    arith,
    λ (p : Publication). select_holds (publication_of i) db.publications {x = p},
    λ (l : Listing). select_holds (of_owner i user) db.listings {x = l},
    select-update (from_draft i e) (of_owner i user)
        (submitted_as ListingStatus.pending_moderation true clock.db_now) db.listings (λ x. refl),
    select-update (from_draft i e) (of_owner i user)
        (submitted_as ListingStatus.payment_required false clock.db_now) db.listings (λ x. refl),
  )

  -- A resubmission that succeeds answers with the publication that the listing has: it adds none
  -- and makes no payment. It leaves the listing in moderation, at the revision that the call and
  -- the result name and with the content that it had.
  pub resubmit_listing_keeps :
      {r : ResubmissionResultDto} {db' : Db} {l l' : Listing} {p : Publication}
      → resubmit_listing catalog clock user i e db ≡ ok (r, db')
      → select (of_owner i user) db.listings ≡ some l
      → select (publication_of i) db.publications ≡ some p
      → select (of_owner i user) db'.listings ≡ some l'
      → (db'.publications ≡ db.publications)
        × (db'.payments ≡ db.payments)
        × (r.number ≡ p.publication_number)
        × (r.revision ≡ e)
        × (l'.status ≡ ListingStatus.pending_moderation)
        × (l'.revision ≡ e)
        × (l'.content ≡ l.content)
  unfolding resubmit_listing
  resubmit_listing_keeps {l} h hl hp hl' = ground (
    arith,
    select_holds (of_owner i user) db.listings hl,
    select-update (returned i e) (of_owner i user)
        (submitted_as ListingStatus.pending_moderation true clock.db_now) db.listings (λ x. refl),
  )

  -- A draft without a publication that meets the checks is submitted, where publications are
  -- numbered consecutively and the settings are there: it gets the next number, and while that is
  -- within the free limit it is free and enters moderation; past it, it waits for its fee.
  pub submit_listing_succeeds :
      {s : SubmissionSettings} {l : Listing}
      → Numbered db
      → get_submission_settings db.settings ≡ some s
      → select (of_owner i user) db.listings ≡ some l
      → select (publication_of i) db.publications ≡ none
      → Submittable catalog db s.image_min l e
      → let r = submit_listing catalog clock user i e db in
        let number = count_publications user db + 1 in
        (r ≡ ok (outcome db.next_id user number (leb number s.free_limit) s l, after db r))
        × (select (of_owner i user) (after db r).listings
            ≡ some (submitted_row clock (leb number s.free_limit) l))
  unfolding submit_listing count_publications
  submit_listing_succeeds {s} {l} n hs hl hp ready = ground (
    arith,
    ready.draft,
    ready.current,
    ready.complete,
    ready.valid,
    max_of-count user db.publications n.consecutive,
    select_holds (of_owner i user) db.listings hl,
    select-update (from_draft i e) (of_owner i user)
        (submitted_as ListingStatus.pending_moderation true clock.db_now) db.listings (λ x. refl),
    select-update (from_draft i e) (of_owner i user)
        (submitted_as ListingStatus.payment_required false clock.db_now) db.listings (λ x. refl),
    exists_of_select (from_draft i e) (of_owner i user) db.listings hl,
  )

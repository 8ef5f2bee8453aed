-- ===== src/Moderation/EditPublication.antt =====
-- The approval of an edit publishes what was staged, and nothing else.
use avtosh.Common.{
  ℕ, ◌+◌, ◌≡◌, refl, sym, ap, ◌∙◌, inl, inr, Bool, true, Option, none, some, List, ◌++◌, arith,
  select, select_all, exists, delete, update, ok, Result-cases, Option-cases, Bool-cases,
  select-update, select_holds, touch_option, ==_refl,
}
use avtosh.Db.{Db, Clock}
use avtosh.Db.Listings.{EditStatus, Listing, ListingContent, EditRevision, is_edit_pending}
use avtosh.Db.Moderation.{Adjustment, Decision}
use avtosh.Db.Settings.{get_submission_settings}
use avtosh.Submission.Catalog.{Catalog}
use avtosh.Content.Checks.{assert_revision_submittable, approved_content_set}
use avtosh.Content.Approved.{ContentOf, approved_content_set-ContentOf}
use avtosh.Lifecycle.Store.{of_id, open_of, owned_by, staged_from, clearable, cleared}
use avtosh.Lifecycle.Visibility.{try_finalize_seller_reactivation}
use avtosh.Moderation.Adjustments.{open_adjustment_of}
use avtosh.Moderation.Apply.{content_target, with_content, features_of, insert_features}
use avtosh.Moderation.Staged.{
  FeaturesAre, GalleryIs, insert_features-FeaturesAre, staged_from-GalleryIs,
}
use avtosh.Moderation.EditDecide.{
  EditDecisionInput, EditDecisionResultDto, FinalListing, decide_edit, apply_edit, apply_decision,
  withdraw, finalize_decision, decidable, decided_edit, edit_status_after,
}
use avtosh.Moderation.EditDecided.{
  EditDecided, decide_edit-EditDecided, Finalized, finalize-Finalized, edit_reviewed, settled_edit,
  reported, visible_edit,
}

-- What an approval without an adjustment does to the database.
pub record Swapped (catalog : Catalog) (l : Listing) (edit : EditRevision) (d e : Db) : Type 0 where
  pub content : ListingContent
  pub approved : approved_content_set catalog edit.snapshot ≡ ok content
  pub listings :
      e.listings ≡ update (content_target l.id l.revision) (with_content content) d.listings
  pub features :
      e.listing_features
      ≡ insert_features l.id edit.snapshot.feature_ids
          (delete (features_of l.id) d.listing_features)
  pub gallery :
      e.listing_images
      ≡ staged_from l.id d.next_id (select_all (owned_by edit.id) d.edit_images)
        ++ delete (owned_by l.id) d.listing_images
  pub same :
      (e.revisions ≡ d.revisions)
      × (e.periods ≡ d.periods)
      × (e.promotions ≡ d.promotions)
      × (e.payments ≡ d.payments)

apply_edit-Swapped :
    (clock : Clock) (catalog : Catalog) (moderator : ℕ) (l : Listing) (edit : EditRevision) (d : Db)
    {paths : List ℕ} {e : Db}
    → apply_edit clock catalog moderator l edit none d ≡ ok (paths, e)
    → Swapped catalog l edit d e
unfolding apply_edit
apply_edit-Swapped clock catalog moderator l edit d {paths} {e} h =
    elim (Option-cases (get_submission_settings d.settings)) [
      | inl z ↦ absurd (ground (arith, h, z))
      | inr (s, z) ↦ elim (Result-cases (assert_revision_submittable catalog d edit s.image_min)) [
        | inl (x, c) ↦ absurd (ground (arith, h, z, c))
        | inr (u, c) ↦ elim (Result-cases (approved_content_set catalog edit.snapshot)) [
          | inl (x, k) ↦ absurd (ground (arith, h, z, c, k))
          | inr (content, k) ↦
              elim (Option-cases (select (content_target l.id l.revision) d.listings)) [
                | inl t ↦ absurd (ground (arith, h, z, c, k, t))
                | inr (row, t) ↦ record {
                  content = content;
                  approved = k;
                  listings = (ground (arith, h, z, c, k, t));
                  features = (ground (arith, h, z, c, k, t));
                  gallery = (ground (arith, h, z, c, k, t));
                  same = (ground (arith, h, z, c, k, t));
                }
              ]
        ]
      ]
    ]

-- The same publication with other content.
abbrev pub PublishedAs : ListingContent → Listing → Listing → Type 0
PublishedAs content l m =
    (m.id ≡ l.id)
    × (m.content ≡ content)
    × (m.status ≡ l.status)
    × (m.owner_id ≡ l.owner_id)
    × (m.published_at ≡ l.published_at)
    × (m.current_expires_at ≡ l.current_expires_at)
    × (m.deleted_at ≡ l.deleted_at)

Finalized-PublishedAs :
    (now : ℕ) (content : ListingContent) (l : Listing) (d e : Db) {m : Listing}
    → Finalized now l.id d e
    → select (of_id l.id) d.listings ≡ some (with_content content l)
    → select (of_id l.id) e.listings ≡ some m
    → PublishedAs content l m
Finalized-PublishedAs now content l d e {m} fin before after_it = elim (fin.0) [
  | inl same ↦
      let is : some m ≡ some (with_content content l) =
        sym after_it ∙ ap (select (of_id l.id)) same ∙ before in
      ground (arith, is)
  | inr step ↦
      let p : Listing → Bool = clearable now (exists (open_of l.id) d.revisions) l.id in
      let is : some m ≡ touch_option p cleared (some (with_content content l)) =
        sym after_it
        ∙ ap (select (of_id l.id)) step
        ∙ select-update p (of_id l.id) cleared d.listings (λ x. refl)
        ∙ ap (touch_option p cleared) before in
      elim (Bool-cases (p (with_content content l))) [
        | inl b ↦ ground (arith, is, b)
        | inr b ↦ ground (arith, is, b)
      ]
]

-- The end of an approval: the finalizer on the listing as it is then, and the answer.
abbrev Ended : ℕ → ℕ → FinalListing → Db → Db → Type 0
Ended now i f d e =
    (fresh : Listing) × (m : Listing) × (select (of_id i) d.listings ≡ some fresh)
    × (select (of_id i) e.listings ≡ some m)
    × (f.status ≡ m.status)
    × (f.revision ≡ m.revision)
    × (fresh.id ≡ i)
    × Finalized now fresh.id d e

approval-Ended :
    (clock : Clock) (l : Listing) (d : Db) {f : FinalListing × Bool} {e : Db}
    → finalize_decision clock l Decision.approved d ≡ ok (f, e)
    → Ended clock.db_now l.id (f.0) d e
unfolding finalize_decision
approval-Ended clock l d {f} {e} h = elim (Option-cases (select (of_id l.id) d.listings)) [
  | inl z ↦ absurd (ground (arith, h, z))
  | inr (fresh, z) ↦ elim (Result-cases (try_finalize_seller_reactivation clock fresh d)) [
    | inl (x, g) ↦ absurd (ground (arith, h, z, g))
    | inr ((result, x), g) ↦ elim (Option-cases (select (of_id l.id) x.listings)) [
      | inl y ↦ absurd (ground (arith, h, z, g, y))
      | inr (m, y) ↦
          let same : x ≡ e = ground (arith, h, z, g, y) in
          let said : (f.0 ≡ record { status = m.status; revision = m.revision }) =
            ground (arith, h, z, g, y) in
          (
            fresh,
            m,
            z,
            ap (λ t. select (of_id l.id) t.listings) (sym same) ∙ y,
            ap (λ t. t.status) said,
            ap (λ t. t.revision) said,
            ground (arith, select_holds (of_id l.id) d.listings z),
            rw (sym same) (finalize-Finalized clock fresh d g),
          )
    ]
  ]
]

nothing_withdrawn :
    (clock : Clock) (moderator i : ℕ) (a : Option Adjustment) (d : Db) {e : Db}
    → withdraw clock moderator i a Decision.approved d ≡ ok (tt, e)
    → (e.listings ≡ d.listings)
      × (e.listing_features ≡ d.listing_features)
      × (e.listing_images ≡ d.listing_images)
      × (e.revisions ≡ d.revisions)
      × (e.periods ≡ d.periods)
      × (e.promotions ≡ d.promotions)
      × (e.payments ≡ d.payments)
unfolding withdraw
nothing_withdrawn clock moderator i a d h = ground (arith, h)

module _ (clock : Clock) (catalog : Catalog) (moderator i : ℕ) (input : EditDecisionInput) (db : Db)
    (l : Listing) (edit : EditRevision) where
  -- An approval of a pending edit without an adjustment that goes through publishes what was
  -- staged. The listing has the content of the snapshot in every field, except that an empty
  -- description, phone or name becomes none, as does a claim of no accident or of no repainting
  -- that is not made; its category is active. In the gallery's place are exactly copies of the
  -- staged images, in their order and with their paths and places, and its features are those of the
  -- snapshot, while the images and features of others stay. Its owner, status, term and first
  -- publication stay, as do all periods, promotions and payments; the edit is closed as approved.
  -- The answer names the status and the revision that the listing then has.
  pub decide_edit_publishes :
      {r : EditDecisionResultDto} {db' : Db}
      → select (of_id i) db.listings ≡ some l
      → select (open_of i) db.revisions ≡ some edit
      → is_edit_pending edit.status ≡ true
      → input.decision ≡ Decision.approved
      → select (open_adjustment_of l.id) db.adjustments ≡ none
      → decide_edit clock catalog moderator i input db ≡ ok (r, db')
      → (m : Listing) × (content : ListingContent) × (next : ℕ) × (catalog.category
            edit.snapshot.content.category_code
          ≡ true)
        × ContentOf edit.snapshot.content content
        × (select (of_id l.id) db'.listings ≡ some m)
        × (r.status ≡ m.status)
        × (r.revision ≡ m.revision)
        × (db'.listing_features
            ≡ insert_features l.id edit.snapshot.feature_ids
                (delete (features_of l.id) db.listing_features))
        × (db'.listing_images
            ≡ staged_from l.id next (select_all (owned_by edit.id) db.edit_images)
              ++ delete (owned_by l.id) db.listing_images)
        × FeaturesAre l.id edit.snapshot.feature_ids db.listing_features db'.listing_features
        × GalleryIs l.id
            (select_all (owned_by edit.id) db.edit_images)
            db.listing_images
            db'.listing_images
        × (db'.revisions
            ≡ update
                (decidable edit.id edit.revision)
                (decided_edit EditStatus.approved clock.db_now)
                db.revisions)
        × (db'.periods ≡ db.periods)
        × (db'.promotions ≡ db.promotions)
        × (db'.payments ≡ db.payments)
        × PublishedAs content l m
  decide_edit_publishes {r} {db'} found open_one pending approved alone h =
      let (fresh, m, before, here, status, revision, key, fin) = ended in
      let features : (db'.listing_features
          ≡ insert_features l.id edit.snapshot.feature_ids
              (delete (features_of l.id) db.listing_features)) =
        ap (λ t. t.listing_features) q.ends ∙ fin.1 ∙ w.1 ∙ s.features in
      let gallery : (db'.listing_images
          ≡ staged_from l.id (db.next_id + 1) (select_all (owned_by edit.id) db.edit_images)
            ++ delete (owned_by l.id) db.listing_images) =
        ap (λ t. t.listing_images) q.ends ∙ fin.2 ∙ w.2 ∙ s.gallery in
      (
        m,
        s.content,
        db.next_id + 1,
        written.0,
        written.1,
        ap (λ t. select (of_id l.id) t.listings) q.ends ∙ here,
        q.result.0 ∙ status,
        q.result.1 ∙ revision,
        features,
        gallery,
        rw features
            (insert_features-FeaturesAre l.id edit.snapshot.feature_ids db.listing_features),
        rw gallery (
            staged_from-GalleryIs l.id (db.next_id + 1)
              (select_all (owned_by edit.id) db.edit_images) db.listing_images),
        ap (λ t. t.revisions) q.ends
            ∙ fin.3
            ∙ w.3
            ∙ ap
                (λ v.
                  update (decidable edit.id edit.revision)
                    (decided_edit (edit_status_after v) clock.db_now) q.effects.revisions)
                approved
            ∙ ap
                (update (decidable edit.id edit.revision)
                  (decided_edit EditStatus.approved clock.db_now))
                s.same.0,
        ap (λ t. t.periods) q.ends ∙ fin.4 ∙ w.4 ∙ s.same.1,
        ap (λ t. t.promotions) q.ends ∙ fin.5 ∙ w.5 ∙ s.same.2,
        ap (λ t. t.payments) q.ends ∙ fin.6 ∙ w.6 ∙ s.same.3,
        Finalized-PublishedAs clock.db_now s.content l
            (reported clock catalog moderator i input db l edit q.paths q.after_withdrawal) q.end
            (rw key at fin) row here,
      )
    where
      q : EditDecided clock catalog moderator i input db l edit r db'
      q = decide_edit-EditDecided clock catalog moderator i input db l edit found open_one pending h

      start : Db
      start =
          edit_reviewed clock catalog moderator i input db l edit
            (select (open_adjustment_of l.id) db.adjustments)

      s : Swapped catalog l edit start q.effects
      s = apply_edit-Swapped clock catalog moderator l edit start (
          sym (
            ap
              (λ v.
                apply_decision clock catalog moderator l edit
                  (select (open_adjustment_of l.id) db.adjustments) v start)
              approved
            ∙ ap (λ a. apply_decision clock catalog moderator l edit a Decision.approved start)
                alone
            ∙ is_apply)
          ∙ q.applied)
        where
          is_apply :
              apply_decision clock catalog moderator l edit none Decision.approved start
              ≡ apply_edit clock catalog moderator l edit none start
          is_apply = unfold apply_decision in refl

      written :
          (catalog.category edit.snapshot.content.category_code ≡ true)
          × ContentOf edit.snapshot.content s.content
      written = approved_content_set-ContentOf catalog edit.snapshot s.approved

      w :
          (q.after_withdrawal.listings ≡ q.effects.listings)
          × (q.after_withdrawal.listing_features ≡ q.effects.listing_features)
          × (q.after_withdrawal.listing_images ≡ q.effects.listing_images)
          × (q.after_withdrawal.revisions
              ≡ (settled_edit clock catalog moderator i input db l edit q.effects).revisions)
          × (q.after_withdrawal.periods ≡ q.effects.periods)
          × (q.after_withdrawal.promotions ≡ q.effects.promotions)
          × (q.after_withdrawal.payments ≡ q.effects.payments)
      w =
          nothing_withdrawn clock moderator l.id (select (open_adjustment_of l.id) db.adjustments)
            (settled_edit clock catalog moderator i input db l edit q.effects)
            (ap
                (λ v.
                  withdraw clock moderator l.id (select (open_adjustment_of l.id) db.adjustments) v
                    (settled_edit clock catalog moderator i input db l edit q.effects))
                (sym approved)
              ∙ q.withdraws)

      ended :
          Ended clock.db_now l.id
            (q.final_state.0)
            (reported clock catalog moderator i input db l edit q.paths q.after_withdrawal)
            q.end
      ended =
          approval-Ended clock l
            (reported clock catalog moderator i input db l edit q.paths q.after_withdrawal)
            (ap
                (λ v.
                  finalize_decision clock l v
                    (reported clock catalog moderator i input db l edit q.paths q.after_withdrawal))
                (sym approved)
              ∙ q.finishes)

      here_before : select (of_id l.id) db.listings ≡ some l
      here_before = ap (λ j. select (of_id j) db.listings) same_id ∙ found
        where
          same_id : l.id ≡ i
          same_id = ground (arith, select_holds (of_id i) db.listings found)

      row : select (of_id l.id) q.after_withdrawal.listings ≡ some (with_content s.content l)
      row =
          ap (select (of_id l.id)) (w.0 ∙ s.listings)
          ∙ select-update (content_target l.id l.revision) (of_id l.id) (with_content s.content)
              db.listings (λ x. refl)
          ∙ ap (touch_option (content_target l.id l.revision) (with_content s.content)) here_before
          ∙ ground (
            arith,
            visible_edit clock catalog moderator i input db l edit found h,
            ==_refl l.id,
            ==_refl l.revision,
          )

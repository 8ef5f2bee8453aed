-- ===== src/Moderation/Saved.antt =====
-- A moderator's saves and discards touch the adjustments only, and of a frozen pass nothing.
use avtosh.Common.{
  ℕ, ◌≡◌, refl, inl, inr, false, Option, none, some, List, ◌∷◌, arith, select, exists, update, ok,
  ◌==◌, Bool-cases, Option-cases, Result-cases,
}
use avtosh.Db.{Db, Clock}
use avtosh.Db.Listings.{EditData}
use avtosh.Db.Moderation.{Adjustment, ImagePlanRowEntry}
use avtosh.Db.Settings.{get_submission_settings}
use avtosh.Submission.Catalog.{Catalog}
use avtosh.Content.Selections.{Texts}
use avtosh.Content.Adjusted.{resolve_adjusted_data}
use avtosh.Moderation.Claims.{require_owned_live_claim}
use avtosh.Moderation.Plan.{normalize_image_plan}
use avtosh.Moderation.Adjustments.{
  AdjustmentInput, open_adjustment_of, new_adjustment, at_revision, reworked, discarded_row,
}
use avtosh.Lifecycle.Store.{of_id, open_of}
use avtosh.Moderation.Save.{
  SubjectInput, AdjustmentSaveInput, ResolvedSubject, first_save, update_save, save_onto,
  save_adjustment, discard_adjustment, matches_subject, resolve_current_subject,
}

-- The whole database but the adjustments, the audit rows and the generated ids.
abbrev pub Untouched : Db → Db → Type 0
Untouched d e = e ≡ record d { adjustments = e.adjustments; audits = e.audits; next_id = e.next_id }

-- How a save or a discard changes the table of adjustments.
pub data Change (rows : List Adjustment) : List Adjustment → Type 0 where
  none_changed : Change rows rows
  created :
      (id : ℕ) (input : AdjustmentInput)
      → exists (open_adjustment_of input.listing_id) rows ≡ false
      → Change rows (new_adjustment id input ∷ rows)
  worked :
      (id revision moderator : ℕ) (data' : EditData) (plan : List ImagePlanRowEntry)
      → Change rows (update (at_revision id revision) (reworked data' plan moderator) rows)
  discarded :
      (id revision now : ℕ)
      → Change rows (update (at_revision id revision) (discarded_row now) rows)

module _ (catalog : Catalog) (texts : Texts) (moderator i : ℕ) (input : AdjustmentSaveInput)
    (s : ResolvedSubject) (image_min : ℕ) (d : Db) where
  first_changes :
      (a : Option Adjustment) {row : Adjustment} {e : Db}
      → first_save catalog texts moderator i input s image_min a d ≡ ok (row, e)
      → Untouched d e × Change d.adjustments e.adjustments
  unfolding first_save
  first_changes a {row} {e} h =
      elim (Result-cases (resolve_adjusted_data catalog texts s.submitted_data input.content)) [
        | inl (x, p) ↦ absurd (ground (arith, h, p))
        | inr (data', p) ↦
            elim (Result-cases
              (normalize_image_plan input.image_plan s.submitted_images image_min)) [
                | inl (x, q) ↦ absurd (ground (arith, h, p, q))
                | inr (plan, q) ↦ elim (Bool-cases (exists (open_adjustment_of i) d.adjustments)) [
                  | inl o ↦ absurd (ground (arith, h, p, q, o))
                  | inr o ↦
                      let fields : AdjustmentInput = record {
                        listing_id = i;
                        edit_revision_id = s.edit_revision_id;
                        submitted_listing_revision = s.listing_revision;
                        submitted_edit_revision_no = s.edit_revision_no;
                        submitted_data = s.submitted_data;
                        submitted_images = s.submitted_images;
                        adjusted_data = data';
                        image_plan = plan;
                        moderator_id = moderator;
                      } in
                      let same : e.adjustments ≡ new_adjustment d.next_id fields ∷ d.adjustments =
                        ground (arith, h, p, q, o) in
                      (ground (arith, h, p, q, o), rw same (Change.created d.next_id fields o))
                ]
              ]
      ]

  update_changes :
      (expected : ℕ) (a : Option Adjustment) {row : Adjustment} {e : Db}
      → update_save catalog texts moderator i input s image_min expected a d ≡ ok (row, e)
      → Untouched d e × Change d.adjustments e.adjustments
  unfolding update_save
  update_changes expected none {row} {e} h = absurd (ground (arith, h))
  update_changes expected (some a) {row} {e} h = elim (Bool-cases (matches_subject a s)) [
    | inr m ↦ absurd (ground (arith, h, m))
    | inl m ↦ elim (Bool-cases (a.revision == expected)) [
      | inr v ↦ absurd (ground (arith, h, m, v))
      | inl v ↦
          elim (Result-cases (resolve_adjusted_data catalog texts a.adjusted_data input.content)) [
            | inl (x, p) ↦ absurd (ground (arith, h, m, v, p))
            | inr (data', p) ↦
                elim (Result-cases
                  (normalize_image_plan input.image_plan a.submitted_images image_min)) [
                    | inl (x, q) ↦ absurd (ground (arith, h, m, v, p, q))
                    | inr (plan, q) ↦
                        elim (Option-cases (select (at_revision a.id a.revision) d.adjustments)) [
                          | inl o ↦ absurd (ground (arith, h, m, v, p, q, o))
                          | inr (y, o) ↦
                              let same : e.adjustments
                                  ≡ update (at_revision a.id a.revision)
                                      (reworked data' plan moderator) d.adjustments =
                                ground (arith, h, m, v, p, q, o) in
                              (
                                ground (arith, h, m, v, p, q, o),
                                rw same (Change.worked a.id a.revision moderator data' plan),
                              )
                        ]
                  ]
          ]
    ]
  ]

  onto_changes :
      (expected : Option ℕ) (a : Option Adjustment) {row : Adjustment} {e : Db}
      → save_onto catalog texts moderator i input s image_min expected a d ≡ ok (row, e)
      → Untouched d e × Change d.adjustments e.adjustments
  unfolding save_onto
  onto_changes none a h = first_changes a h
  onto_changes (some expected) a h = update_changes expected a h

module _ (i : ℕ) (db : Db) where
  -- The resolution of the subject only reads.
  subject_reads :
      (input : SubjectInput) {s : ResolvedSubject} {e : Db}
      → resolve_current_subject i input db ≡ ok (s, e)
      → e ≡ db
  unfolding resolve_current_subject
  subject_reads input h = elim (Option-cases (select (of_id i) db.listings)) [
    | inl z ↦ absurd (ground (arith, h, z))
    | inr (l, z) ↦ elim (Option-cases input.edit_revision_id) [
      | inl y ↦ ground (arith, h, z, y)
      | inr (k, y) ↦ elim (Option-cases (select (open_of i) db.revisions)) [
        | inl x ↦ absurd (ground (arith, h, z, y, x))
        | inr (r, x) ↦ ground (arith, h, z, y, x)
      ]
    ]
  ]

  module _ (clock : Clock) (moderator : ℕ) where
    pub saved_changes :
        (catalog : Catalog) (texts : Texts) (input : AdjustmentSaveInput) {row : Adjustment}
        {e : Db}
        → save_adjustment clock catalog texts moderator i input db ≡ ok (row, e)
        → Untouched db e × Change db.adjustments e.adjustments
    unfolding save_adjustment
    saved_changes catalog texts input {row} {e} h =
        elim (Result-cases (resolve_current_subject i input.subject db)) [
          | inl (x, p) ↦ absurd (ground (arith, h, p))
          | inr ((s, d), p) ↦
              let same = subject_reads input.subject p in
              let p' : resolve_current_subject i input.subject db ≡ ok (s, db) =
                ground (arith, p, same) in
              elim (Result-cases (require_owned_live_claim clock i moderator db)) [
                | inl (x, g) ↦ absurd (ground (arith, h, p', g))
                | inr (claim, g) ↦ elim (Option-cases (get_submission_settings db.settings)) [
                  | inl t ↦ absurd (ground (arith, h, p', g, t))
                  | inr (settings, t) ↦
                      onto_changes catalog texts moderator i input s settings.image_min db
                        input.expected_adjustment_revision
                        (select (open_adjustment_of i) db.adjustments) {row = row} {e = e}
                        (ground (arith, h, p', g, t))
                ]
              ]
        ]

    pub discarded_changes :
        (expected : ℕ) {row : Adjustment} {e : Db}
        → discard_adjustment clock moderator i expected db ≡ ok (row, e)
        → Untouched db e × Change db.adjustments e.adjustments
    unfolding discard_adjustment
    discarded_changes expected {row} {e} h = elim (Option-cases (select (of_id i) db.listings)) [
      | inl z ↦ absurd (ground (arith, h, z))
      | inr (l, z) ↦ elim (Result-cases (require_owned_live_claim clock i moderator db)) [
        | inl (x, g) ↦ absurd (ground (arith, h, z, g))
        | inr (claim, g) ↦ elim (Option-cases (select (open_adjustment_of i) db.adjustments)) [
          | inl o ↦
              let same : e ≡ db = ground (arith, h, z, g, o) in rw same (refl, Change.none_changed)
          | inr (a, o) ↦
              let same : e.adjustments
                  ≡ update (at_revision a.id a.revision) (discarded_row clock.db_now)
                      db.adjustments =
                ground (arith, h, z, g, o) in
              (ground (arith, h, z, g, o), rw same (Change.discarded a.id a.revision clock.db_now))
        ]
      ]
    ]

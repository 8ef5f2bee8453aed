-- ===== src/Moderation/EditDecided.antt =====
-- What a decision on an edit that goes through was, and did.
use avtosh.Common.{
  ℕ, ◌+◌, ◌≡◌, ◌⊎◌, inl, inr, Bool, true, Option, none, some, List, ◌∷◌, arith, ◌==◌, select,
  exists, update, ok, Result-cases, Option-cases, Bool-cases, is_some,
}
use avtosh.Db.{Db, Clock}
use avtosh.Db.Listings.{Listing, EditRevision, is_edit_pending, is_deleted}
use avtosh.Db.Moderation.{Adjustment, ModerationClaim}
use avtosh.Submission.Catalog.{Catalog}
use avtosh.Lifecycle.Store.{of_id, open_of, clearable, cleared}
use avtosh.Lifecycle.Visibility.{FinalizeResult, try_finalize_seller_reactivation}
use avtosh.Moderation.Claims.{require_owned_live_claim, releasable, released}
use avtosh.Moderation.Adjustments.{open_adjustment_of}
use avtosh.Moderation.Reviews.{new_review}
use avtosh.Moderation.EditDecide.{
  EditDecisionInput, EditDecisionResultDto, FinalListing, decide_edit, decide_open_edit,
  decide_pending_edit, check_edit_adjustment, apply_decision, withdraw, finalize_decision,
  decidable, decided_edit, edit_status_after, edit_action, edit_event,
}

-- The finalizer changes the listings only, and there only one that it may publish.
abbrev pub Finalized : ℕ → ℕ → Db → Db → Type 0
Finalized now i d e =
    ((e.listings ≡ d.listings)
      ⊎ (e.listings ≡ update (clearable now (exists (open_of i) d.revisions) i) cleared d.listings))
    × (e.listing_features ≡ d.listing_features)
    × (e.listing_images ≡ d.listing_images)
    × (e.revisions ≡ d.revisions)
    × (e.periods ≡ d.periods)
    × (e.promotions ≡ d.promotions)
    × (e.payments ≡ d.payments)

pub finalize-Finalized :
    (clock : Clock) (l : Listing) (d : Db) {r : FinalizeResult} {e : Db}
    → try_finalize_seller_reactivation clock l d ≡ ok (r, e)
    → Finalized clock.db_now l.id d e
unfolding try_finalize_seller_reactivation
finalize-Finalized clock l d {r} {e} h = ground (arith, h)

checked-same :
    (l : Listing) (e : EditRevision) (expected : Option ℕ) (a : Option Adjustment) (db : Db)
    {d : Unit {0} × Db}
    → check_edit_adjustment l e expected a db ≡ ok d
    → check_edit_adjustment l e expected a db ≡ ok (tt, db)
unfolding check_edit_adjustment
checked-same l e expected a db h = ground (arith, h)

module _ (clock : Clock) (catalog : Catalog) (moderator i : ℕ) (input : EditDecisionInput) (db : Db)
    (l : Listing) (edit : EditRevision) where
  -- The database that the effects start from: with the review.
  abbrev pub edit_reviewed : Option Adjustment → Db
  edit_reviewed a = record db {
    reviews =
        new_review db.next_id clock.db_now l.id moderator l.revision input.decision (some edit.id)
          (some edit.revision) a
        ∷ db.reviews;
    next_id = db.next_id + 1;
  }

  -- With the decision on the revision's row.
  abbrev pub settled_edit : Db → Db
  settled_edit d = record d {
    revisions =
        update (decidable edit.id edit.revision)
          (decided_edit (edit_status_after input.decision) clock.db_now) d.revisions;
  }

  -- With the audit row and the event.
  abbrev pub reported : List ℕ → Db → Db
  reported paths d = record d {
    audits =
        (record {
          actor_user_id = some moderator;
          action = edit_action input.decision;
          entity_id = l.id;
        })
        ∷ d.audits;
    outbox =
        (record {
          event_type = edit_event input.decision;
          aggregate_id = l.id;
          cleanup_candidate_paths = paths;
        })
        ∷ d.outbox;
  }

  pub record EditDecided (r : EditDecisionResultDto) (db' : Db) : Type 0 where
    pub claim : ModerationClaim
    pub paths : List ℕ
    pub effects : Db
    pub after_withdrawal : Db
    pub final_state : FinalListing × Bool
    pub end : Db
    pub applied :
        apply_decision clock catalog moderator l edit
          (select (open_adjustment_of l.id) db.adjustments)
          input.decision
          (edit_reviewed (select (open_adjustment_of l.id) db.adjustments))
        ≡ ok (paths, effects)
    pub withdraws :
        withdraw clock moderator l.id
          (select (open_adjustment_of l.id) db.adjustments)
          input.decision
          (settled_edit effects)
        ≡ ok (tt, after_withdrawal)
    pub finishes :
        finalize_decision clock l input.decision (reported paths after_withdrawal)
        ≡ ok (final_state, end)
    pub result :
        (r.status ≡ (final_state.0).status)
        × (r.revision ≡ (final_state.0).revision)
        × (r.reactivated ≡ final_state.1)
    pub ends :
        db'
        ≡ record end { claims = update (releasable claim.id) (released clock.db_now) end.claims }

  reaches_pending :
      {r : EditDecisionResultDto} {db' : Db}
      → select (of_id i) db.listings ≡ some l
      → select (open_of i) db.revisions ≡ some edit
      → is_edit_pending edit.status ≡ true
      → decide_edit clock catalog moderator i input db ≡ ok (r, db')
      → decide_pending_edit clock catalog moderator l input edit db ≡ ok (r, db')
  unfolding decide_edit decide_open_edit
  reaches_pending {r} {db'} found open_one pending h = elim (Bool-cases (is_some l.deleted_at)) [
    | inl v ↦ absurd (ground (arith, h, found, v))
    | inr v ↦ elim (Bool-cases (is_deleted l.status)) [
      | inl w ↦ absurd (ground (arith, h, found, v, w))
      | inr w ↦ ground (arith, h, found, v, w, open_one, pending)
    ]
  ]

  pending-EditDecided :
      {r : EditDecisionResultDto} {db' : Db}
      → decide_pending_edit clock catalog moderator l input edit db ≡ ok (r, db')
      → EditDecided r db'
  unfolding decide_pending_edit
  pending-EditDecided {r} {db'} h =
      elim (Bool-cases (edit.revision == input.expected_edit_revision)) [
        | inr e ↦ absurd (ground (arith, h, e))
        | inl e ↦ elim (Result-cases (require_owned_live_claim clock l.id moderator db)) [
          | inl (x, g) ↦ absurd (ground (arith, h, e, g))
          | inr (claim, g) ↦
              elim (Result-cases
                (check_edit_adjustment l edit input.expected_adjustment_revision one db)) [
                  | inl (x, c) ↦ absurd (ground (arith, h, e, g, c))
                  | inr ((u, d), c) ↦
                      let c' : check_edit_adjustment l edit input.expected_adjustment_revision one
                            db
                          ≡ ok (tt, db) =
                        checked-same l edit input.expected_adjustment_revision one db c in
                      elim (Result-cases (
                        apply_decision clock catalog moderator l edit one input.decision
                          (edit_reviewed one))) [
                            | inl (x, k) ↦ absurd (ground (arith, h, e, g, c', k))
                            | inr ((paths, effects), k) ↦
                                elim (Option-cases
                                  (select (decidable edit.id edit.revision) effects.revisions)) [
                                    | inl o ↦ absurd (ground (arith, h, e, g, c', k, o))
                                    | inr (row, o) ↦
                                        elim (Result-cases (
                                          withdraw clock moderator l.id one input.decision
                                            (settled_edit effects))) [
                                              | inl (x, w) ↦
                                                  absurd (ground (arith, h, e, g, c', k, o, w))
                                              | inr ((t, after_withdrawal), w) ↦
                                                  elim (Result-cases (
                                                    finalize_decision clock l input.decision
                                                      (reported paths after_withdrawal))) [
                                                        | inl (x, f) ↦ absurd (
                                                            ground (arith, h, e, g, c', k, o, w, f))
                                                        | inr ((final_state, end), f) ↦ record {
                                                          claim = claim;
                                                          paths = paths;
                                                          effects = effects;
                                                          after_withdrawal = after_withdrawal;
                                                          final_state = final_state;
                                                          end = end;
                                                          applied = k;
                                                          withdraws = w;
                                                          finishes = f;
                                                          result =
                                                            (ground
                                                            (arith, h, e, g, c', k, o, w, f));
                                                          ends =
                                                            (ground
                                                            (arith, h, e, g, c', k, o, w, f));
                                                        }
                                                      ]
                                            ]
                                  ]
                          ]
                ]
        ]
      ]
    where
      one : Option Adjustment
      one = select (open_adjustment_of l.id) db.adjustments

  pub decide_edit-EditDecided :
      {r : EditDecisionResultDto} {db' : Db}
      → select (of_id i) db.listings ≡ some l
      → select (open_of i) db.revisions ≡ some edit
      → is_edit_pending edit.status ≡ true
      → decide_edit clock catalog moderator i input db ≡ ok (r, db')
      → EditDecided r db'
  decide_edit-EditDecided found open_one pending h =
      pending-EditDecided (reaches_pending found open_one pending h)

  -- The listing of a decision is not deleted.
  pub visible_edit :
      {r : EditDecisionResultDto} {db' : Db}
      → select (of_id i) db.listings ≡ some l
      → decide_edit clock catalog moderator i input db ≡ ok (r, db')
      → l.deleted_at ≡ none
  unfolding decide_edit
  visible_edit {r} {db'} found h = elim (Option-cases l.deleted_at) [
    | inl v ↦ v
    | inr (t, v) ↦ absurd (ground (arith, h, found, v))
  ]

-- ===== src/Moderation/Decided.antt =====
-- What a decision that goes through was, and did.
use avtosh.Common.{
  ℕ, ◌+◌, ◌≡◌, inl, inr, true, Option, none, some, [], ◌∷◌, arith, ◌==◌, select, update, ok,
  Result-cases, Bool-cases,
}
use avtosh.Db.{Db, Clock}
use avtosh.Db.Listings.{Listing, ListingStatus, is_pending_moderation}
use avtosh.Db.Logs.{ReasonCode}
use avtosh.Db.Moderation.{Adjustment, ModerationClaim}
use avtosh.Submission.Catalog.{Catalog}
use avtosh.Lifecycle.Store.{of_id}
use avtosh.Moderation.Claims.{require_owned_live_claim, releasable, released}
use avtosh.Moderation.Adjustments.{open_adjustment_of}
use avtosh.Moderation.Reviews.{Activation, new_review}
use avtosh.Moderation.Decide.{
  DecisionInput, DecisionResultDto, decide, carry_out, check_adjustment, status_after,
  decision_event,
}

-- The check of the adjustment only reads.
checked-same :
    (l : Listing) (expected : Option ℕ) (a : Option Adjustment) (db : Db) {d : Unit {0} × Db}
    → check_adjustment l expected a db ≡ ok d
    → check_adjustment l expected a db ≡ ok (tt, db)
unfolding check_adjustment
checked-same l expected a db h = ground (arith, h)

module _ (clock : Clock) (catalog : Catalog) (moderator i : ℕ) (input : DecisionInput) (db : Db)
    (l : Listing) where
  -- The database that the effects of the decision start from: with the review.
  abbrev pub reviewed : Option Adjustment → Db
  reviewed a = record db {
    reviews =
        new_review db.next_id clock.db_now i moderator l.revision input.decision none none a
        ∷ db.reviews;
    next_id = db.next_id + 1;
  }

  -- And the one that they end in: with the history, the event and the released claim.
  abbrev pub closed_with : ModerationClaim → Db → Db
  closed_with claim d = record d {
    history =
        (record {
          listing_id = i;
          from_status = ListingStatus.pending_moderation;
          to_status = status_after input.decision;
          actor_user_id = some moderator;
          reason_code = ReasonCode.moderation;
        })
        ∷ d.history;
    outbox =
        (record {
          event_type = decision_event input.decision;
          aggregate_id = i;
          cleanup_candidate_paths = [];
        })
        ∷ d.outbox;
    claims = update (releasable claim.id) (released clock.db_now) d.claims;
  }

  pub record Decided (r : DecisionResultDto) (db' : Db) : Type 0 where
    pub claim : ModerationClaim
    pub activation : Option Activation
    pub effects : Db
    pub gate : require_owned_live_claim clock i moderator db ≡ ok claim
    pub current : l.revision ≡ input.expected_revision
    pub seen :
        check_adjustment l input.expected_adjustment_revision
          (select (open_adjustment_of i) db.adjustments)
          db
        ≡ ok (tt, db)
    pub carried :
        carry_out clock catalog moderator i l
          (select (open_adjustment_of i) db.adjustments)
          input.decision
          (reviewed (select (open_adjustment_of i) db.adjustments))
        ≡ ok (activation, effects)
    pub result : r ≡ record {
      status = status_after input.decision;
      revision = l.revision;
      review =
          new_review db.next_id clock.db_now i moderator l.revision input.decision none none
            (select (open_adjustment_of i) db.adjustments);
      activation = activation;
    }
    pub end : db' ≡ closed_with claim effects

  pub decided :
      {r : DecisionResultDto} {db' : Db}
      → select (of_id i) db.listings ≡ some l
      → is_pending_moderation l.status ≡ true
      → decide clock catalog moderator i input db ≡ ok (r, db')
      → Decided r db'
  unfolding decide
  decided {r} {db'} found pending h = elim (Bool-cases (l.revision == input.expected_revision)) [
    | inr e ↦ absurd (ground (arith, found, pending, e))
    | inl e ↦ elim (Result-cases (require_owned_live_claim clock i moderator db)) [
      | inl (x, g) ↦ absurd (ground (arith, found, pending, e, g))
      | inr (claim, g) ↦
          elim (Result-cases (check_adjustment l input.expected_adjustment_revision open_one db)) [
            | inl (x, c) ↦ absurd (ground (arith, found, pending, e, g, c))
            | inr ((u, d), c) ↦
                let c' : check_adjustment l input.expected_adjustment_revision open_one db
                    ≡ ok (tt, db) =
                  checked-same l input.expected_adjustment_revision open_one db c in
                elim (Result-cases (
                  carry_out clock catalog moderator i l open_one input.decision
                    (reviewed open_one))) [
                      | inl (x, k) ↦ absurd (ground (arith, found, pending, e, g, c', k))
                      | inr ((activation, effects), k) ↦ record {
                        claim = claim;
                        activation = activation;
                        effects = effects;
                        gate = g;
                        current = ground (arith, e);
                        seen = c';
                        carried = k;
                        result = (ground (arith, found, pending, e, g, c', k));
                        end = (ground (arith, found, pending, e, g, c', k));
                      }
                    ]
          ]
    ]
  ]
    where
      open_one : Option Adjustment
      open_one = select (open_adjustment_of i) db.adjustments

-- ===== src/Moderation/Retry.antt =====
-- A decision is made once: repeating it answers with the review that was made.
use avtosh.Common.{
  ℕ, ◌+◌, ◌*◌, ◌≡◌, refl, sym, ap, ◌∙◌, inl, inr, Bool, true, false, Option, none, some, List, [],
  ◌∷◌, arith, select, ok, ltb, select-update, select_holds, select_latest, touch_option, Bool-cases,
  Option-cases, ==_refl, exists, max_of, ◌⊎◌,
}
use avtosh.Db.{Db, Clock}
use avtosh.Db.Listings.{Listing, is_pending_moderation}
use avtosh.Db.Moderation.{Adjustment, Decision, Review, same_decision}
use avtosh.Submission.Catalog.{Catalog}
use avtosh.Lifecycle.Store.{of_id}
use avtosh.Payment.Periods.{ms_per_day, period_of}
use avtosh.Moderation.Adjustments.{open_adjustment_of}
use avtosh.Moderation.Reviews.{
  activatable, activated_listing, with_status, new_review, same_review, review_order, Activation,
  current_activation,
}
use avtosh.Moderation.Decide.{
  DecisionInput, DecisionResultDto, decide, carry_out, status_after, is_approved,
  repeated_activation,
}
use avtosh.Moderation.Decided.{Decided, decided, reviewed}
use avtosh.Moderation.Approval.{Activated, activate-Activated}
use avtosh.Moderation.Approves.{prepared, halves}
use avtosh.Moderation.TurnDown.{turned_down, carried_down}

select_latest_found {ℓ} :
    {A : Type ℓ} (p : A → Bool) (key : A → ℕ) (x : A) (l : List A)
    → p x ≡ true
    → (y : A) × (select_latest p key (x ∷ l) ≡ some y)
unfolding select_latest
select_latest_found p key x l h = elim (Option-cases (select_latest p key l)) [
  | inl e ↦ (x, ground (arith, h, e))
  | inr (z, e) ↦ elim (Bool-cases (ltb (key x) (key z))) [
    | inl b ↦ (z, ground (arith, h, e, b))
    | inr b ↦ (x, ground (arith, h, e, b))
  ]
]

select_latest_holds {ℓ} :
    {A : Type ℓ} (p : A → Bool) (key : A → ℕ) (l : List A) {y : A}
    → select_latest p key l ≡ some y
    → p y ≡ true
unfolding select_latest
select_latest_holds p key [] h = absurd (ground arith)
select_latest_holds p key (x ∷ l) {y} h = elim (Option-cases (select_latest p key l)) [
  | inl e ↦ ground (arith, h, e)
  | inr (z, e) ↦ elim (Bool-cases (p x)) [
    | inr n ↦ ground (arith, h, e, n, select_latest_holds p key l {y = y})
    | inl n ↦ elim (Bool-cases (ltb (key x) (key z))) [
      | inl b ↦ ground (arith, h, e, n, b, select_latest_holds p key l {y = z} e)
      | inr b ↦ ground (arith, h, e, n, b)
    ]
  ]
]

-- A listing that was published has an end.
abbrev Ends : Listing → Type 0
Ends m =
    (m.published_at ≡ none)
    ⊎ ((p : ℕ) × (e : ℕ) × (m.published_at ≡ some p) × (m.current_expires_at ≡ some e))

-- Where an approval has set both times, the answer of a retry can be made.
repeats :
    (i : ℕ) (m : Listing) (input : DecisionInput) (d : Db)
    → (is_approved input.decision ≡ false) ⊎ Ends m
    → (o : Option Activation) × (repeated_activation i m input d ≡ ok (o, d))
unfolding repeated_activation current_activation
repeats i m input d (inl n) = (none, ground (arith, n))
repeats i m input d (inr (inl n)) = elim (Bool-cases (is_approved input.decision)) [
  | inl k ↦ (none, ground (arith, n, k))
  | inr k ↦ (none, ground (arith, n, k))
]
repeats i m input d (inr (inr (p, e, hp, he))) = elim (Bool-cases (is_approved input.decision)) [
  | inr k ↦ (none, ground (arith, k))
  | inl k ↦ elim (Bool-cases (exists (period_of i) d.periods)) [
    | inr x ↦ (none, ground (arith, k, x, hp, he))
    | inl x ↦ (
      some (record {
        published_at = p;
        current_expires_at = e;
        period_number = max_of (period_of i) (λ q. q.period_number) d.periods;
      }),
      ground (arith, k, x, hp, he),
    )
  ]
]

module _ (clock : Clock) (catalog : Catalog) (moderator i : ℕ) (input : DecisionInput) (db : Db)
    (l : Listing) where
  -- After a decision the listing is no longer pending, and its reviews are one more.
  abbrev Settled : Db → Type 0
  Settled d =
      (m : Listing) × (select (of_id i) d.listings ≡ some m)
      × (is_pending_moderation m.status ≡ false)
      × (d.reviews
          ≡ (reviewed clock catalog moderator i input db l
              (select (open_adjustment_of i) db.adjustments)).reviews)
      × ((is_approved input.decision ≡ false) ⊎ Ends m)

  settled :
      {r : DecisionResultDto} {db' : Db}
      → select (of_id i) db.listings ≡ some l
      → is_pending_moderation l.status ≡ true
      → l.deleted_at ≡ none
      → decide clock catalog moderator i input db ≡ ok (r, db')
      → Settled db'
  settled {r} {db'} found pending kept h = by_decision input.decision refl
    where
      a : Option Adjustment
      a = select (open_adjustment_of i) db.adjustments

      start : Db
      start = reviewed clock catalog moderator i input db l a

      q : Decided clock catalog moderator i input db l r db'
      q = decided clock catalog moderator i input db l found pending h

      carried :
          (v : Decision)
          → input.decision ≡ v
          → carry_out clock catalog moderator i l a v start ≡ ok (q.activation, q.effects)
      carried v e = ap (λ t. carry_out clock catalog moderator i l a t start) (sym e) ∙ q.carried

      down : (v : Decision) → is_approved v ≡ false → input.decision ≡ v → Settled db'
      down v n e =
          let t =
            turned_down clock moderator i l (status_after v) start a
              (sym (carried_down clock catalog moderator i l a v start n) ∙ carried v e) in
          (
            with_status (status_after v) l,
            ap (λ t. select (of_id i) t.listings) q.end
                ∙ ap (select (of_id i)) t.1
                ∙ select-update (activatable i l.revision) (of_id i) (with_status (status_after v))
                    db.listings (λ x. refl)
                ∙ ground (arith, found, pending, select_holds (of_id i) db.listings found),
            not_pending v,
            ap (λ t. t.reviews) q.end ∙ t.3,
            inl (ap is_approved e ∙ n),
          )
        where
          not_pending : (v : Decision) → is_pending_moderation (status_after v) ≡ false
          not_pending Decision.approved = refl
          not_pending Decision.rejected = refl
          not_pending Decision.correction_requested = refl

      up : input.decision ≡ Decision.approved → Settled db'
      up e =
          let (rev, middle, act, p, v, o) =
            halves clock catalog moderator i l start a (carried Decision.approved e) in
          let (m, shape, row, revision, key, waits, periods, settings, reviews) =
            prepared clock catalog moderator i l start a found pending kept p in
          let f : Activated clock i l rev middle act q.effects =
            activate-Activated clock i l rev middle v in
          (
            activated_listing clock.js_now (clock.js_now + f.days * ms_per_day) m,
            ap (λ t. select (of_id i) t.listings) q.end
                ∙ ap (select (of_id i)) f.listings
                ∙ select-update (activatable i rev) (of_id i)
                    (activated_listing clock.js_now (clock.js_now + f.days * ms_per_day))
                    middle.listings (λ x. refl)
                ∙ ap
                    (touch_option (activatable i rev)
                      (activated_listing clock.js_now (clock.js_now + f.days * ms_per_day)))
                    row
                ∙ ground (arith, revision, key, waits),
            refl,
            ap (λ t. t.reviews) q.end ∙ f.reviews ∙ reviews,
            inr (inr (_, _, refl, refl)),
          )

      by_decision : (v : Decision) → input.decision ≡ v → Settled db'
      by_decision Decision.approved e = up e
      by_decision Decision.rejected e = down Decision.rejected refl e
      by_decision Decision.correction_requested e = down Decision.correction_requested refl e

  -- Whoever has decided on a pending listing that is not deleted, and repeats the decision at any
  -- later time, is answered with a review of that very decision on that very revision, and changes
  -- nothing.
  pub decide_again :
      {r : DecisionResultDto} {db' : Db}
      → select (of_id i) db.listings ≡ some l
      → is_pending_moderation l.status ≡ true
      → l.deleted_at ≡ none
      → decide clock catalog moderator i input db ≡ ok (r, db')
      → (later : Clock)
      → (r' : DecisionResultDto) × (decide later catalog moderator i input db' ≡ ok (r', db'))
        × (same_review i moderator input.expected_revision input.decision r'.review ≡ true)
  decide_again {r} {db'} found pending kept h later =
      let (m, row, over, reviews, ends) = settled found pending kept h in
      let (x, first) =
        select_latest_found same review_order (made l.revision) db.reviews
          (is_same (current_of found pending h)) in
      let latest : select_latest same review_order db'.reviews ≡ some x =
        ap (select_latest same review_order) reviews ∙ first in
      let (o, again) = repeats i m input db' ends in
      (
        _,
        answered m x o row over latest again,
        select_latest_holds same review_order db'.reviews latest,
      )
    where
      a : Option Adjustment
      a = select (open_adjustment_of i) db.adjustments

      same : Review → Bool
      same = same_review i moderator input.expected_revision input.decision

      made : ℕ → Review
      made revision =
          new_review db.next_id clock.db_now i moderator revision input.decision none none a

      current_of :
          select (of_id i) db.listings ≡ some l
          → is_pending_moderation l.status ≡ true
          → decide clock catalog moderator i input db ≡ ok (r, db')
          → l.revision ≡ input.expected_revision
      current_of found pending h =
          let q : Decided clock catalog moderator i input db l r db' =
            decided clock catalog moderator i input db l found pending h in
          q.current

      same_decision_refl : (v : Decision) → same_decision v v ≡ true
      same_decision_refl Decision.approved = refl
      same_decision_refl Decision.rejected = refl
      same_decision_refl Decision.correction_requested = refl

      is_same : l.revision ≡ input.expected_revision → same (made l.revision) ≡ true
      is_same e = ground (arith, e, same_decision_refl input.decision, ==_refl i, ==_refl moderator)

      answered :
          (m : Listing) (x : Review) (o : Option Activation)
          → select (of_id i) db'.listings ≡ some m
          → is_pending_moderation m.status ≡ false
          → select_latest same review_order db'.reviews ≡ some x
          → repeated_activation i m input db' ≡ ok (o, db')
          → decide later catalog moderator i input db'
            ≡ ok (
              record { status = m.status; revision = m.revision; review = x; activation = o },
              db',
            )
      answered m x o row over latest again =
          unfold decide in ground (arith, row, over, latest, again)

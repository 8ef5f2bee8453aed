-- ===== src/Payment/Promotions.antt =====
-- Promotion periods of one listing and type never overlap.
use avtosh.Common.{
  ℕ, ◌+◌, ◌*◌, ◌≤◌, ◌<◌, ◌≡◌, refl, ◌⊎◌, inl, inr, true, List, [], ◌∷◌, arith, max_of, Bool-cases,
  All, ok,
}
use avtosh.Db.{Db, Clock}
use avtosh.Db.Payments.{Promotion, PromotionType, PromotionStatus, same_promotion, is_live}
use avtosh.Payment.Periods.{
  ms_per_day, running, extension_base, new_period, PromotionOrder, insert_promotion_period,
}

-- Both are of one listing and one type, and not closed: the rows that the exclusion constraint
-- compares.
abbrev pub Rivals : Promotion → Promotion → Type 0
Rivals p q =
    (p.listing_id ≡ q.listing_id)
    × (same_promotion p.type q.type ≡ true)
    × (is_live p.status ≡ true)
    × (is_live q.status ≡ true)

abbrev pub Apart : Promotion → Promotion → Type 0
Apart p q = Rivals p q → (p.ends_at ≤ q.starts_at) ⊎ (q.ends_at ≤ p.starts_at)

-- Each row is apart from all that were there before it.
abbrev pub Disjoint : List Promotion → Type 0
Disjoint [] = Unit {0}
Disjoint (p ∷ rows) = All (Apart p) rows × Disjoint rows

max_of-bound :
    (i : ℕ) (t : PromotionType) (now b : ℕ) (rows : List Promotion)
    → max_of (running i t now) (λ p. p.ends_at) rows ≤ b
    → All (λ p. running i t now p ≡ true → p.ends_at ≤ b) rows
unfolding max_of
max_of-bound i t now b [] h = tt
max_of-bound i t now b (p ∷ rows) h = elim (Bool-cases (running i t now p)) [
  | inl e ↦
      let m = rw e at h in ((λ _. omega (arith, m)), max_of-bound i t now b rows (omega (arith, m)))
  | inr e ↦ ((λ f. absurd (ground (arith, e, f))), max_of-bound i t now b rows (rw e at h))
]

-- The new period starts at the extension base, which no running rival passes; and what does not
-- run ended by now.
new_period-All :
    (id : ℕ) (order : PromotionOrder) (now b : ℕ) (rows : List Promotion)
    → now ≤ b
    → All (λ p. running order.listing_id order.type now p ≡ true → p.ends_at ≤ b) rows
    → All (Apart (new_period id order now b)) rows
new_period-All id order now b [] le h = tt
new_period-All id order now b (p ∷ rows) le h = (apart, new_period-All id order now b rows le h.1)
  where
    apart : Apart (new_period id order now b) p
    apart = unfold new_period in ground arith

module _ (clock : Clock) (db : Db) (order : PromotionOrder) where
  -- A bought period is queued after every running or waiting one of its listing and type, so the
  -- periods stay disjoint; it starts now or later, lasts exactly the days that were paid, and is
  -- ACTIVE exactly if it starts now.
  pub insert_promotion_period-Disjoint :
      Disjoint db.promotions
      → let p =
          new_period db.next_id order clock.db_now
            (extension_base order.listing_id order.type clock.db_now db.promotions) in
        (insert_promotion_period clock order db
          ≡ ok (p, record db { promotions = p ∷ db.promotions; next_id = db.next_id + 1 }))
        × Disjoint (p ∷ db.promotions)
        × (clock.db_now ≤ p.starts_at)
        × (p.ends_at ≡ p.starts_at + order.duration_days * ms_per_day)
        × ((p.status ≡ PromotionStatus.active) × (p.starts_at ≡ clock.db_now)
            ⊎ (p.status ≡ PromotionStatus.scheduled) × (clock.db_now < p.starts_at))
  unfolding insert_promotion_period
  insert_promotion_period-Disjoint disjoint = (
    refl,
    (
      new_period-All db.next_id order clock.db_now base db.promotions (omega arith)
          (max_of-bound order.listing_id order.type clock.db_now base db.promotions (omega arith)),
      disjoint,
    ),
    omega arith,
    refl,
    ground arith,
  )
    where
      base : ℕ
      base = extension_base order.listing_id order.type clock.db_now db.promotions

-- ===== src/Payment/Purchased.antt =====
-- A repeated purchase comes to the same payment.
use avtosh.Common.{
  ℕ, false, refl, ◌≤◌, ◌≡◌, ◌⊎◌, none, count_empty, List, [], ◌∷◌, ◌<◌, Bool, sym, ap, ◌∙◌, inl,
  inr, true, Option, some, arith, select, count, update, ok, Option-cases, Bool-cases,
  exists-select, count-update-lt, count_zero-select, ==_refl,
}
use avtosh.Db.{Db, Clock}
use avtosh.Db.Listings.{Listing}
use avtosh.Db.Payments.{Payment, PaymentStatus, PromotionType, is_created}
use avtosh.Lifecycle.Store.{of_owner}
use avtosh.Payment.Purchases.{
  PromotionPackage, promotable, is_payment_type, payment_type, open_promotion, cancellable_intent,
  cancelled_intent, promotion_intent, new_intent, reuse_or_replace, is_package,
  create_promotion_intent,
}

own_open :
    (id user i : ℕ) (type : PromotionType) (pkg : PromotionPackage)
    → open_promotion i type (promotion_intent id user i type pkg) ≡ true
own_open id user i PromotionType.premium pkg = ground (arith, ==_refl i)
own_open id user i PromotionType.boost pkg = ground (arith, ==_refl i)

-- One row of the table meets the test, and this is it.
abbrev OnlyOpen : ℕ → PromotionType → Payment → Db → Type 0
OnlyOpen i type p e =
    (select (open_promotion i type) e.payments ≡ some p)
    × (count (open_promotion i type) e.payments ≡ 1)

-- A new intent of a listing's owner, at the price and term of the package.
pub record NewIntent (id user i : ℕ) (type : PromotionType) (pkg : PromotionPackage) (p : Payment)
    : Type 0 where
  pub key : p.id ≡ id
  pub payer : p.user_id ≡ user
  pub listing : p.listing_id ≡ some i
  pub of_type : is_payment_type type p.type ≡ true
  pub price : p.amount_minor ≡ pkg.price_minor
  pub currency : p.currency ≡ pkg.currency
  pub term : p.package_duration_days ≡ some pkg.duration_days
  pub no_renewal : p.renewal_duration_days ≡ none
  pub unstarted : (p.status ≡ PaymentStatus.created) × (p.provider_order_id ≡ none)
  pub unpaid : (p.fulfilled ≡ false) × (p.provider_transaction_id ≡ none)

promotion_intent-NewIntent :
    (id user i : ℕ) (type : PromotionType) (pkg : PromotionPackage)
    → NewIntent id user i type pkg (promotion_intent id user i type pkg)
promotion_intent-NewIntent id user i type pkg = record {
  key = refl;
  payer = refl;
  listing = refl;
  of_type = own_type type;
  price = refl;
  currency = refl;
  term = refl;
  no_renewal = refl;
  unstarted = (refl, refl);
  unpaid = (refl, refl);
}
  where
    own_type : (t : PromotionType) → is_payment_type t (payment_type t) ≡ true
    own_type PromotionType.premium = refl
    own_type PromotionType.boost = refl

-- The intent is the one that was open before, or a new one.
abbrev pub IntentFor : Db → ℕ → ℕ → PromotionType → PromotionPackage → Payment → Type 0
IntentFor d user i type pkg p =
    (select (open_promotion i type) d.payments ≡ some p) ⊎ NewIntent d.next_id user i type pkg p

-- The intent of the purchase is the open one afterwards.
abbrev Standing : ℕ → ℕ → PromotionType → PromotionPackage → Payment → Db → Db → Type 0
Standing user i type pkg p d e =
    OnlyOpen i type p e
    × (p.promotion_package_id ≡ some pkg.id)
    × (e.listings ≡ d.listings)
    × IntentFor d user i type pkg p

count_positive :
    (t : Payment → Bool) (xs : List Payment) {p : Payment} → select t xs ≡ some p → 0 < count t xs
unfolding select count
count_positive t [] h = absurd (ground (arith, h))
count_positive t (x ∷ xs) {p} h = elim (Bool-cases (t x)) [
  | inl k ↦ ground (arith, k)
  | inr k ↦ ground (arith, k, count_positive t xs {p = p} (rw k at h))
]

package_of : (n : ℕ) (o : Option ℕ) → is_package n o ≡ true → o ≡ some n
package_of n none h = absurd (ground (arith, h))
package_of n (some k) h = ground (arith, h)

new_intent-Standing :
    (user i : ℕ) (type : PromotionType) (pkg : PromotionPackage) (d : Db) {p : Payment} {e : Db}
    → count (open_promotion i type) d.payments ≡ 0
    → new_intent user i type pkg d ≡ ok (p, e)
    → OnlyOpen i type p e
      × (p ≡ promotion_intent d.next_id user i type pkg)
      × (e.listings ≡ d.listings)
unfolding new_intent select count
new_intent-Standing user i type pkg d free h = ground (
  arith,
  free,
  exists-select (open_promotion i type) d.payments,
  count_zero-select (open_promotion i type) d.payments free,
  h,
  own_open d.next_id user i type pkg,
)

reuse-Standing :
    (user i : ℕ) (type : PromotionType) (pkg : PromotionPackage) (d : Db) {p : Payment} {e : Db}
    → count (open_promotion i type) d.payments ≤ 1
    → reuse_or_replace user i type pkg (select (open_promotion i type) d.payments) d ≡ ok (p, e)
    → Standing user i type pkg p d e
unfolding reuse_or_replace
reuse-Standing user i type pkg d {p} {e} one h =
    elim (Option-cases (select (open_promotion i type) d.payments)) [
      | inl z ↦
          let s =
            new_intent-Standing user i type pkg d
              (count_empty (open_promotion i type) d.payments
                (ground (arith, z, exists-select (open_promotion i type) d.payments)))
              (rw z at h) in
          (
            s.0,
            ap (λ t. t.promotion_package_id) (s.1),
            s.2,
            inr (rw (s.1) (promotion_intent-NewIntent d.next_id user i type pkg)),
          )
      | inr (x, z) ↦ elim (Bool-cases (is_package pkg.id x.promotion_package_id)) [
        | inl k ↦
            let same : (x ≡ p) × (d ≡ e) = ground (arith, h, z, k) in
            let open_one : select (open_promotion i type) d.payments ≡ some p =
              z ∙ ap some same.0 in
            (
              rw (sym same.1) (
                open_one,
                ground (arith, one, count_positive (open_promotion i type) d.payments z),
              ),
              ap (λ t. t.promotion_package_id) (sym same.0)
                  ∙ package_of pkg.id x.promotion_package_id k,
              ap (λ t. t.listings) (sym same.1),
              inl open_one,
            )
        | inr k ↦ elim (Bool-cases (is_created x.status)) [
          | inr c ↦ absurd (ground (arith, h, z, k, c))
          | inl c ↦
              let s =
                new_intent-Standing user i type pkg (replaced x) {p = p} {e = e} (free x z c)
                  (ground (arith, h, z, k, c)) in
              (
                s.0,
                ap (λ t. t.promotion_package_id) (s.1),
                s.2,
                inr (rw (s.1) (promotion_intent-NewIntent d.next_id user i type pkg)),
              )
        ]
      ]
    ]
  where
    replaced : Payment → Db
    replaced x = record d {
      payments = update (cancellable_intent x.id) cancelled_intent d.payments;
    }

    free :
        (x : Payment)
        → select (open_promotion i type) d.payments ≡ some x
        → is_created x.status ≡ true
        → count (open_promotion i type) (replaced x).payments ≡ 0
    free x z c =
        let fewer =
          count-update-lt (cancellable_intent x.id) (open_promotion i type) cancelled_intent
            d.payments z (ground (arith, c, ==_refl x.id)) (λ y g. ground arith) in
        omega (arith, one, fewer)

module _ (packages : PromotionType → ℕ → Option PromotionPackage) (clock : Clock)
    (user i package_id : ℕ) (type : PromotionType) (db : Db) (l : Listing) where
  -- A purchase that is granted, where the listing has at most one open purchase of the type, is of
  -- the requested package: the payment is the intent that was open, if that is of this package, or
  -- a new one at the package's price, currency and term. It is the only open purchase of the type
  -- that the listing then has. Whoever repeats the request while the listing is still promotable
  -- gets the same payment, and nothing changes: no second intent, and no other price.
  pub create_promotion_intent_again :
      {p : Payment} {db' : Db} (later : Clock)
      → select (of_owner i user) db.listings ≡ some l
      → count (open_promotion i type) db.payments ≤ 1
      → create_promotion_intent packages clock user i type package_id db ≡ ok (p, db')
      → promotable later.db_now l ≡ true
      → (pkg : PromotionPackage) × (packages type package_id ≡ some pkg)
        × (p.promotion_package_id ≡ some pkg.id)
        × IntentFor db user i type pkg p
        × (select (open_promotion i type) db'.payments ≡ some p)
        × (count (open_promotion i type) db'.payments ≡ 1)
        × (create_promotion_intent packages later user i type package_id db' ≡ ok (p, db'))
  unfolding create_promotion_intent
  create_promotion_intent_again {p} {db'} later owned one h still =
      elim (Bool-cases (promotable clock.db_now l)) [
        | inr v ↦ absurd (ground (arith, h, owned, v))
        | inl v ↦ elim (Option-cases (packages type package_id)) [
          | inl k ↦ absurd (ground (arith, h, owned, v, k))
          | inr (pkg, k) ↦
              let s =
                reuse-Standing user i type pkg db {p = p} {e = db'} one
                  (ground (arith, h, owned, v, k)) in
              let row : select (of_owner i user) db'.listings ≡ some l =
                ap (select (of_owner i user)) s.2 ∙ owned in
              (pkg, k, s.1, s.3, s.0.0, s.0.1, repeated pkg row s.0.0 s.1 k)
        ]
      ]
    where
      repeated :
          (pkg : PromotionPackage)
          → select (of_owner i user) db'.listings ≡ some l
          → select (open_promotion i type) db'.payments ≡ some p
          → p.promotion_package_id ≡ some pkg.id
          → packages type package_id ≡ some pkg
          → create_promotion_intent packages later user i type package_id db' ≡ ok (p, db')
      repeated pkg row held own k =
          unfold create_promotion_intent in
          unfold reuse_or_replace in ground (arith, row, held, own, k, still, ==_refl pkg.id)

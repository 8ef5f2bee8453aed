-- ===== src/Payment/PurchaseTests.antt =====
-- A seller buys Boost, having started the purchase of another package.
use avtosh.Common.{
  ℕ, ◌≡◌, ◌≤◌, refl, Option, some, [], ◌∷◌, arith, ok, count, select, update, exists,
}
use avtosh.Db.{Db, after}
use avtosh.Db.Payments.{Payment, PromotionType}
use avtosh.Samples.{shown, two, clock}
use avtosh.Lifecycle.Store.{of_owner}
use avtosh.Payment.Purchases.{
  PromotionPackage, open_promotion, promotion_intent, new_intent, reuse_or_replace,
  create_promotion_intent,
}
use avtosh.Payment.Purchased.{IntentFor, create_promotion_intent_again}

abbrev boost_week : PromotionPackage
boost_week = record { id = 3; price_minor = 500; currency = 1; duration_days = 7 }

abbrev packages : PromotionType → ℕ → Option PromotionPackage
packages type n = some boost_week

abbrev started : Payment
started = promotion_intent 90 7 1 PromotionType.boost (record boost_week { id = 2 })

abbrev buying : Db
buying = record two { payments = started ∷ [] }

abbrev bought : Payment
bought = promotion_intent 100 7 1 PromotionType.boost boost_week

abbrev with_intent : Db
with_intent = after buying (create_promotion_intent packages clock 7 1 PromotionType.boost 3 buying)

buys :
    create_promotion_intent packages clock 7 1 PromotionType.boost 3 buying
    ≡ ok (bought, with_intent)
unfolding create_promotion_intent reuse_or_replace new_intent select update exists
buys = refl

found_shown : select (of_owner 1 7) buying.listings ≡ some shown
unfolding select
found_shown = refl

one_started : count (open_promotion 1 PromotionType.boost) buying.payments ≤ 1
unfolding count
one_started = omega arith

create_promotion_intent_again_example :
    (pkg : PromotionPackage) × (some boost_week ≡ some pkg)
    × (some 3 ≡ some pkg.id)
    × IntentFor buying 7 1 PromotionType.boost pkg bought
    × (select (open_promotion 1 PromotionType.boost) with_intent.payments ≡ some bought)
    × (count (open_promotion 1 PromotionType.boost) with_intent.payments ≡ 1)
    × (create_promotion_intent packages
          (record { db_now = 60; js_now = 61 })
          7
          1
          PromotionType.boost
          3
          with_intent
        ≡ ok (bought, with_intent))
create_promotion_intent_again_example =
    create_promotion_intent_again packages clock 7 1 3 PromotionType.boost buying shown
      (record { db_now = 60; js_now = 61 }) found_shown one_started buys refl

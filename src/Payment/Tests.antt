-- ===== src/Payment/Tests.antt =====
-- A listing fee, a Boost and a renewal, and the payment theorems at them.
use avtosh.Common.{
  if◌then◌else◌, ltb, not, ◌&&◌, ◌≡◌, refl, inl, false, none, some, [], ◌∷◌, arith, ok, select,
  exists, update, max_of, is_some,
}
use avtosh.Db.{Db, after}
use avtosh.Db.Listings.{Listing, ListingStatus}
use avtosh.Db.Payments.{
  Payment, PaymentStatus, PaymentType, Attempt, ProviderStatus, Promotion, PromotionType,
  PromotionStatus,
}
use avtosh.Samples.{shown, hidden, two, clock, late}
use avtosh.Lifecycle.Store.{of_id, open_of, cleared}
use avtosh.Payment.Periods.{PromotionOrder, new_period, extension_base, insert_promotion_period}
use avtosh.Payment.Checkout.{Claim, obtain_claim}
use avtosh.Payment.Fulfil.{fulfill_renewal, fulfill_payment, renewed}
use avtosh.Payment.Verify.{
  OrderDetails, VerificationOutcome, settle_verification, settle_status, verify_provider_payment,
}
use avtosh.Payment.Once.{settle_verification_mismatch}
use avtosh.Payment.Attempts.{obtain_all, obtain_all_exclusive}
use avtosh.Payment.Promotions.{insert_promotion_period-Disjoint}
use avtosh.Payment.Renewal.{paid_until, fulfill_renewal_expired}

-- 200 qəpik in currency 944.
abbrev fee : Payment
fee = record {
  id = 70;
  user_id = 7;
  listing_id = some 1;
  type = PaymentType.listing_fee;
  amount_minor = 200;
  currency = 944;
  status = PaymentStatus.created;
  fulfilled = false;
  provider_order_id = none;
  provider_transaction_id = none;
  promotion_package_id = none;
  package_duration_days = none;
  renewal_duration_days = none;
}

abbrev owing : Listing
owing = record shown { status = ListingStatus.payment_required }

abbrev ordered : Attempt
ordered = record {
  id = 80;
  payment_id = 70;
  provider_order_id = some 555;
  hpp_url = some 1;
  hpp_secret = some 2;
  provider_status = ProviderStatus.preparing;
  is_terminal = false;
  succeeded = false;
  created_at = 10;
}

abbrev due : Db
due = record two { listings = owing ∷ []; payments = fee ∷ [] }

abbrev checking : Db
checking = record due { attempts = ordered ∷ [] }

abbrev paid : OrderDetails
paid = record {
  provider_order_id = 555;
  status = ProviderStatus.fully_paid;
  amount_minor = 200;
  currency = 944;
  provider_transaction_id = some 9;
}

-- The whole run: the order is asked for under its id, and the listing enters moderation.
verify_enters_moderation :
    let r = verify_provider_payment clock (λ order. some paid) 70 checking in
    (r ≡ ok (VerificationOutcome.success (some 1001), after checking r))
    × (select (of_id 1) (after checking r).listings
        ≡ some (record shown { status = ListingStatus.pending_moderation; submitted_at = some 50 }))
unfolding verify_provider_payment settle_status fulfill_payment select exists update
verify_enters_moderation = (refl, refl)

settle_verification_mismatch_example :
    let d = record paid { amount_minor = 100 } in
    (after checking (settle_verification clock 70 ordered d none checking)).listings ≡ owing ∷ []
unfolding select
settle_verification_mismatch_example =
    (settle_verification_mismatch clock checking 70 ordered (record paid { amount_minor = 100 })
      none fee refl refl refl refl (inl (omega arith))).2

obtain_all_exclusive_example :
    obtain_all (clock ∷ clock ∷ late ∷ []) 70 due ≡ Claim.create 100 ∷ Claim.wait ∷ Claim.wait ∷ []
unfolding select
obtain_all_exclusive_example =
    obtain_all_exclusive clock (clock ∷ late ∷ []) due 70 fee refl refl refl (omega arith)

-- After the order is persisted, a request reuses its page.
reuses_page :
    obtain_claim late 70 checking
    ≡ ok (Claim.reuse (record { hpp_url = 1; provider_order_id = 555; hpp_secret = 2 }), checking)
unfolding obtain_claim select
reuses_page = refl

boost : PromotionType → PromotionOrder
boost type = record {
  listing_id = 1;
  type = type;
  package_id = some 3;
  payment_id = some 71;
  duration_days = 2;
  price_minor = 300;
}

abbrev boosted : Promotion
boosted = record {
  id = 50;
  listing_id = 1;
  type = PromotionType.boost;
  package_id = some 3;
  payment_id = some 60;
  starts_at = 10;
  ends_at = 400;
  status = PromotionStatus.active;
  purchased_duration_days = 1;
  purchased_price_minor = 100;
  campaign_id = none;
}

abbrev boosting : Db
boosting = record two { promotions = boosted ∷ [] }

-- The second Boost waits for the end of the first.
insert_promotion_period-Disjoint_example :
    let p =
      new_period 100
        (boost PromotionType.boost)
        50
        (extension_base 1 PromotionType.boost 50 (boosted ∷ [])) in
    insert_promotion_period clock (boost PromotionType.boost) boosting
    ≡ ok (p, record boosting { promotions = p ∷ boosted ∷ []; next_id = 101 })
unfolding boost
insert_promotion_period-Disjoint_example =
    (insert_promotion_period-Disjoint clock boosting (boost PromotionType.boost) (tt, tt)).0

second_boost_waits :
    (new_period 100
      (boost PromotionType.boost)
      50
      (extension_base 1 PromotionType.boost 50 (boosted ∷ []))).starts_at
    ≡ 400
unfolding new_period extension_base boost max_of
second_boost_waits = refl

abbrev lapsed : Listing
lapsed = record hidden {
  status = ListingStatus.expired;
  current_expires_at = some 20;
  seller_reactivation_requested_at = some 45;
}

abbrev renewal : Payment
renewal = record fee {
  id = 72;
  listing_id = some 2;
  type = PaymentType.renewal;
  renewal_duration_days = some 30;
}

abbrev lapsing : Db
lapsing = record two { listings = lapsed ∷ shown ∷ [] }

fulfill_renewal_expired_example :
    select (of_id 2) (after lapsing (fulfill_renewal clock renewal lapsing)).listings
    ≡ some (
        if is_some lapsed.seller_deactivated_at
          && is_some lapsed.seller_reactivation_requested_at
          && ltb 50 (paid_until clock 30)
          && not (exists (open_of 2) [])
        then cleared (renewed (paid_until clock 30) lapsed)
        else renewed (paid_until clock 30) lapsed)
unfolding select
fulfill_renewal_expired_example =
    fulfill_renewal_expired clock lapsing renewal 2 30 lapsed refl refl refl refl (omega arith)

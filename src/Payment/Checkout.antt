-- ===== src/Payment/Checkout.antt =====
-- The provider checkout core (src/services/payment-checkout.ts: reuseUrl, claimIsStale,
-- runProviderCheckout). Its phases are transactions of their own, with the provider's
-- `createOrder` between them.
use avtosh.Common.{
  ℕ, zero, suc, ◌+◌, ◌*◌, Bool, false, ◌&&◌, not, Option, none, some, ltb, if◌then◌else◌, is_none,
}
use avtosh.Db.{Clock, Tx, ◌>>=◌, ◌>>◌, return, throw}
use avtosh.Db.Errors.{ApiErrorCode}
use avtosh.Db.Payments.{Payment, Attempt, ProviderStatus, is_open_payment}
use avtosh.Payment.Store.{
  lock_payment, find_active_attempt, claim_initiation, terminalize_attempt, complete_initiation,
  mark_payment_pending, ProviderOrder,
}

abbrev pub initiation_lease_seconds : ℕ
initiation_lease_seconds = 120

abbrev pub initiation_wait_polls : ℕ
initiation_wait_polls = 16

-- The arguments of `buildHppRedirect`, which the checkout URL is made of.
pub record CheckoutResult : Type 0 where
  pub hpp_url : ℕ
  pub provider_order_id : ℕ
  pub hpp_secret : ℕ

abbrev pub reuse_of : Option ℕ → Option ℕ → Option ℕ → Option CheckoutResult
reuse_of (some order_id) (some url) (some secret) =
    some (record { hpp_url = url; provider_order_id = order_id; hpp_secret = secret })
reuse_of _ _ _ = none

abbrev pub reuse_url : Attempt → Option CheckoutResult
reuse_url a = reuse_of a.provider_order_id a.hpp_url a.hpp_secret

-- `Date.now() - created_at > LEASE * 1000`, with the subtraction carried over.
abbrev pub claim_is_stale : ℕ → Attempt → Bool
claim_is_stale now a =
    is_none a.provider_order_id && ltb (a.created_at + initiation_lease_seconds * 1000) now

pub data Claim : Type 0 where
  reuse : CheckoutResult → Claim
  wait : Claim
  create : ℕ → Claim

claimed : Option Attempt → Tx Claim
claimed none = return Claim.wait
claimed (some fresh) = return (Claim.create fresh.id)

take_claim : Clock → ℕ → Tx Claim
unfolding claimed claim_initiation
take_claim clock payment_id = do fresh ← claim_initiation clock payment_id; claimed fresh

of_active : Clock → ℕ → Attempt → Option CheckoutResult → Tx Claim
unfolding take_claim terminalize_attempt
of_active clock payment_id active (some reusable) = return (Claim.reuse reusable)
of_active clock payment_id active none =
    if claim_is_stale clock.js_now active
    then (do
      terminalize_attempt active.id ProviderStatus.initiation_abandoned false
      take_claim clock payment_id)
    else return Claim.wait

claim_open : Clock → ℕ → Option Attempt → Tx Claim
unfolding of_active
claim_open clock payment_id none = take_claim clock payment_id
claim_open clock payment_id (some active) = of_active clock payment_id active (reuse_url active)

claim_payment : Clock → ℕ → Option Payment → Tx Claim
unfolding find_active_attempt claim_open
claim_payment clock payment_id none = throw ApiErrorCode.payment_not_required
claim_payment clock payment_id (some payment) =
    if not (is_open_payment payment.status)
    then throw ApiErrorCode.payment_not_required
    else do active ← find_active_attempt payment_id; claim_open clock payment_id active

-- Phase 1: obtain the claim, or learn who has it.
unfoldable pub obtain_claim : Clock → ℕ → Tx Claim
unfolding lock_payment claim_payment
obtain_claim clock payment_id = do
  payment ← lock_payment payment_id
  claim_payment clock payment_id payment

-- The bounded wait of a request that does not own the claim: poll `i` sees `see i`.
wait_seen : Option Attempt → Option CheckoutResult → Option CheckoutResult → Option CheckoutResult
wait_seen none reusable rest = none
wait_seen (some a) none rest = rest
wait_seen (some a) (some url) rest = some url

reusable_of : Option Attempt → Option CheckoutResult
reusable_of none = none
reusable_of (some a) = reuse_url a

unfoldable pub wait_for_claim : ℕ → (ℕ → Option Attempt) → ℕ → Option CheckoutResult
unfolding wait_seen reusable_of
wait_for_claim zero see i = none
wait_for_claim (suc polls) see i =
    let rest = wait_for_claim polls see (suc i) in wait_seen (see i) (reusable_of (see i)) rest

pub data ProviderFailure : Type 0 where
  network other_failure : ProviderFailure

-- Phase 2 failed: release the claim with an honest marker.
unfoldable pub release_claim : ℕ → ProviderFailure → Tx (Unit {0})
unfolding terminalize_attempt
release_claim attempt_id ProviderFailure.network =
    terminalize_attempt attempt_id ProviderStatus.initiation_ambiguous false
release_claim attempt_id ProviderFailure.other_failure =
    terminalize_attempt attempt_id ProviderStatus.initiation_failed false

-- Phase 3: persist the created order into the claim.
unfoldable pub persist_order : ℕ → ℕ → ProviderOrder → Tx CheckoutResult
unfolding complete_initiation mark_payment_pending
persist_order payment_id attempt_id order = do
  complete_initiation attempt_id order
  mark_payment_pending payment_id order.provider_order_id
  return (record {
    hpp_url = order.hpp_url;
    provider_order_id = order.provider_order_id;
    hpp_secret = order.hpp_secret;
  })

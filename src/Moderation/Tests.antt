-- ===== src/Moderation/Tests.antt =====
-- A listing in the queue, two moderators, and the theorems at them.
use avtosh.Common.{◌≡◌, refl, some, List, [], ◌∷◌, arith, select, update, count, ok, err}
use avtosh.Db.{Db, after}
use avtosh.Db.Errors.{ApiErrorCode}
use avtosh.Db.Listings.{ListingStatus}
use avtosh.Samples.{shown, two, no_rows, clock, late}
use avtosh.Lifecycle.Store.{of_id}
use avtosh.Moderation.Claims.{ClaimDto, claim_listing, require_owned_live_claim}
use avtosh.Moderation.Exclusion.{
  Request, OneClaim, claim_all, claim_all-OneClaim, claim_listing_excludes,
}
use avtosh.Moderation.Suspension.{SuspensionResultDto, suspend_listing}

abbrev queued : Db
queued = record no_rows {
  listings = record shown { status = ListingStatus.pending_moderation } ∷ [];
}

queued-OneClaim : OneClaim queued
unfolding count
queued-OneClaim j = omega arith

-- Moderator 20 claims listing 1 for ten seconds.
abbrev claimed : Db
claimed = after queued (claim_listing clock 10 20 1 queued)

abbrev held : ClaimDto
held = record { moderator_id = 20; expires_at = 10051 }

claims : claim_listing clock 10 20 1 queued ≡ ok (held, claimed)
unfolding claim_listing select
claims = refl

abbrev requests : List Request
requests = (clock, 20, 1) ∷ (late, 21, 1) ∷ (record { db_now = 20000; js_now = 20000 }, 21, 1) ∷ []

-- The third request comes after the first claim's end.
taken_over :
    require_owned_live_claim
      (record { db_now = 20001; js_now = 20001 })
      1
      20
      (claim_all 10 requests queued)
    ≡ err ApiErrorCode.moderation_claimed_by_other
unfolding claim_listing require_owned_live_claim select update
taken_over = refl

claim_listing_excludes_example :
    claim_listing late 10 21 1 claimed ≡ err ApiErrorCode.moderation_claimed_by_other
claim_listing_excludes_example =
    let all = claim_listing_excludes clock 10 20 1 queued claims late 21 (ground arith) in
    all.3 (omega arith)

claim_all-OneClaim_example : OneClaim (claim_all 10 requests queued)
claim_all-OneClaim_example = claim_all-OneClaim 10 requests queued queued-OneClaim

abbrev after_suspension : Db
after_suspension = after two (suspend_listing 20 1 3 two)

abbrev suspension : SuspensionResultDto
suspension = record { status = ListingStatus.suspended; revision = 3 }

suspends : suspend_listing 20 1 3 two ≡ ok (suspension, after_suspension)
unfolding suspend_listing select
suspends = refl

shown_found : select (of_id 1) two.listings ≡ some shown
unfolding select
shown_found = refl

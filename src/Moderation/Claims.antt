-- ===== src/Moderation/Claims.antt =====
-- Claims: which moderator works on a listing, and the gate of every moderation write.
use avtosh.Common.{
  ℕ, ◌+◌, ◌*◌, Bool, false, ◌&&◌, not, Option, none, some, ◌∷◌, ltb, leb, ◌==◌, if◌then◌else◌,
  is_none, select, update, Result, ok, err,
}
use avtosh.Db.{Db, Clock, Tx, ◌>>=◌, ◌>>◌, read, write, return, throw}
use avtosh.Db.Errors.{ApiErrorCode}
use avtosh.Db.Listings.{Listing, EditRevision, is_pending_moderation, is_edit_pending}
use avtosh.Db.Moderation.{ModerationClaim}
use avtosh.Lifecycle.Store.{of_id, get_open_edit_revision}

unfoldable pub lock_listing_for_moderation : ℕ → Tx (Option Listing)
lock_listing_for_moderation listing_id = read (λ db. select (of_id listing_id) db.listings)

abbrev pub unreleased : ℕ → ModerationClaim → Bool
unreleased listing_id c = (c.listing_id == listing_id) && is_none c.released_at

unfoldable pub get_unreleased_claim : ℕ → Tx (Option ModerationClaim)
get_unreleased_claim listing_id = read (λ db. select (unreleased listing_id) db.claims)

-- `claimed_at` defaults to `now()`.
abbrev pub new_claim : ℕ → ℕ → ℕ → ℕ → ℕ → ModerationClaim
new_claim id listing_id moderator_id claimed_at expires_at = record {
  id = id;
  listing_id = listing_id;
  moderator_id = moderator_id;
  claimed_at = claimed_at;
  expires_at = expires_at;
  released_at = none;
}

unfoldable pub insert_claim : Clock → ℕ → ℕ → ℕ → Tx (Unit {0})
insert_claim clock listing_id moderator_id expires_at = write (λ db. record db {
  claims = new_claim db.next_id listing_id moderator_id clock.db_now expires_at ∷ db.claims;
  next_id = db.next_id + 1;
})

abbrev pub claim_of : ℕ → ModerationClaim → Bool
claim_of claim_id c = c.id == claim_id

abbrev pub extended : ℕ → ModerationClaim → ModerationClaim
extended expires_at c = record c { expires_at = expires_at }

unfoldable pub extend_claim : ℕ → ℕ → Tx (Unit {0})
extend_claim claim_id expires_at =
    write (λ db. record db { claims = update (claim_of claim_id) (extended expires_at) db.claims })

abbrev pub releasable : ℕ → ModerationClaim → Bool
releasable claim_id c = (c.id == claim_id) && is_none c.released_at

abbrev pub released : ℕ → ModerationClaim → ModerationClaim
released now c = record c { released_at = some now }

unfoldable pub release_claim : Clock → ℕ → Tx (Unit {0})
release_claim clock claim_id =
    write
      (λ db. record db { claims = update (releasable claim_id) (released clock.db_now) db.claims })

pub record ClaimDto : Type 0 where
  pub moderator_id : ℕ
  pub expires_at : ℕ

-- A pending edit revision makes the listing claimable too.
abbrev edit_awaits : Option EditRevision → Bool
edit_awaits none = false
edit_awaits (some r) = is_edit_pending r.status

insert_new : Clock → ℕ → ℕ → ℕ → Tx ClaimDto
unfolding insert_claim
insert_new clock moderator listing_id expires_at = do
  insert_claim clock listing_id moderator expires_at
  return (record { moderator_id = moderator; expires_at = expires_at })

extend_own : ModerationClaim → ℕ → Tx ClaimDto
unfolding extend_claim
extend_own existing expires_at = do
  extend_claim existing.id expires_at
  return (record { moderator_id = existing.moderator_id; expires_at = expires_at })

-- The moderator's live claim is extended; one whose time is over gives way to a new one.
take_slot : Clock → ℕ → ℕ → ℕ → Option ModerationClaim → Tx ClaimDto
unfolding insert_new extend_own release_claim
take_slot clock moderator listing_id expires_at none =
    insert_new clock moderator listing_id expires_at
take_slot clock moderator listing_id expires_at (some existing) =
    if ltb clock.js_now existing.expires_at && (existing.moderator_id == moderator)
    then extend_own existing expires_at
    else if ltb clock.js_now existing.expires_at
    then throw ApiErrorCode.moderation_claimed_by_other
    else do release_claim clock existing.id; insert_new clock moderator listing_id expires_at

claim_row : Clock → ℕ → ℕ → ℕ → Option Listing → Tx ClaimDto
unfolding get_open_edit_revision get_unreleased_claim take_slot
claim_row clock ttl moderator listing_id none = throw ApiErrorCode.listing_not_found
claim_row clock ttl moderator listing_id (some listing) = do
  pending_edit ← get_open_edit_revision listing_id
  if not (is_pending_moderation listing.status) && not (edit_awaits pending_edit)
      then throw ApiErrorCode.moderation_invalid_state
      else do
        existing ← get_unreleased_claim listing_id
        take_slot clock moderator listing_id (clock.js_now + ttl * 1000) existing

-- `ttl` is `claimTtlSeconds`.
unfoldable pub claim_listing : Clock → ℕ → ℕ → ℕ → Tx ClaimDto
unfolding lock_listing_for_moderation claim_row
claim_listing clock ttl moderator listing_id = do
  row ← lock_listing_for_moderation listing_id
  claim_row clock ttl moderator listing_id row

owned_live : Clock → ℕ → Option ModerationClaim → Result ApiErrorCode ModerationClaim
owned_live clock moderator none = err ApiErrorCode.moderation_claim_required
owned_live clock moderator (some claim) =
    if leb claim.expires_at clock.js_now
    then err ApiErrorCode.moderation_claim_required
    else if not (claim.moderator_id == moderator)
    then err ApiErrorCode.moderation_claimed_by_other
    else ok claim

-- It only reads.
unfoldable pub require_owned_live_claim : Clock → ℕ → ℕ → Db → Result ApiErrorCode ModerationClaim
unfolding owned_live
require_owned_live_claim clock listing_id moderator db =
    owned_live clock moderator (select (unreleased listing_id) db.claims)

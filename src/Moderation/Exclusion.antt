-- ===== src/Moderation/Exclusion.antt =====
-- Claims exclude each other.
use avtosh.Common.{
  ℕ, ◌+◌, ◌*◌, ◌≤◌, ◌<◌, ◌≡◌, ◌≢◌, refl, Bool, true, false, none, some, Option, List, [], ◌∷◌,
  arith, select, count, update, Result, ok, err, select_holds, select-update, count_empty,
  Option-cases, inl, inr, ◌||◌, ap, sym, ◌∙◌, suc, count-update, count-update-le, count-update-lt,
}
use avtosh.Db.{Db, Clock, after}
use avtosh.Db.Errors.{ApiErrorCode}
use avtosh.Db.Listings.{Listing, EditRevision, is_pending_moderation, is_edit_pending}
use avtosh.Lifecycle.Store.{of_id, open_of}
use avtosh.Db.Moderation.{ModerationClaim}
use avtosh.Moderation.Claims.{
  ClaimDto, new_claim, unreleased, claim_of, extended, releasable, released, claim_listing,
  require_owned_live_claim,
}

-- Who holds the listing, and until when.
abbrev holder : Option ModerationClaim → Option (ℕ × ℕ)
holder none = none
holder (some c) = some (c.moderator_id, c.expires_at)

abbrev is_ok {ℓ κ} : {E : Type ℓ} {A : Type κ} → Result E A → Bool
is_ok (ok a) = true
is_ok (err e) = false

abbrev edit_pending : Option EditRevision → Bool
edit_pending none = false
edit_pending (some r) = is_edit_pending r.status

abbrev listing_pending : Option Listing → Option EditRevision → Bool
listing_pending none r = false
listing_pending (some l) r = is_pending_moderation l.status || edit_pending r

-- The listing awaits moderation, itself or by an edit revision.
abbrev claimable : ℕ → Db → Bool
claimable i db = listing_pending (select (of_id i) db.listings) (select (open_of i) db.revisions)

module _ (clock : Clock) (ttl moderator i : ℕ) (db : Db) where
  claimed-holder :
      {dto : ClaimDto} {db' : Db}
      → claim_listing clock ttl moderator i db ≡ ok (dto, db')
      → (holder (select (unreleased i) db'.claims) ≡ some (moderator, clock.js_now + ttl * 1000))
        × (dto.expires_at ≡ clock.js_now + ttl * 1000)
  unfolding claim_listing select
  claimed-holder {dto} {db'} h = elim (Option-cases (select (unreleased i) db.claims)) [
    | inl e ↦ ground (arith, e)
    | inr (c, e) ↦ ground (
      arith,
      e,
      select-update (claim_of c.id) (unreleased i) (extended (clock.js_now + ttl * 1000)) db.claims
          (λ x. refl),
    )
  ]

  claimed-rows :
      {dto : ClaimDto} {db' : Db}
      → claim_listing clock ttl moderator i db ≡ ok (dto, db')
      → (db'.listings ≡ db.listings) × (db'.revisions ≡ db.revisions)
  unfolding claim_listing
  claimed-rows h = ground arith

  -- Whether the listing awaits moderation is not asked of the claims.
  claimable_still :
      {dto : ClaimDto} {db' : Db}
      → claim_listing clock ttl moderator i db ≡ ok (dto, db')
      → claimable i db' ≡ true
  unfolding claim_listing
  claimable_still {dto} {db'} h = ground (arith, claimed-rows h)

module _ (i : ℕ) (db : Db) (now : Clock) where
  gate-other :
      (m e other : ℕ)
      → holder (select (unreleased i) db.claims) ≡ some (m, e)
      → other ≢ m
      → now.js_now < e
      → require_owned_live_claim now i other db ≡ err ApiErrorCode.moderation_claimed_by_other
  unfolding require_owned_live_claim
  gate-other m e other h apart live = ground arith

  gate-over :
      (m e other : ℕ)
      → holder (select (unreleased i) db.claims) ≡ some (m, e)
      → e ≤ now.js_now
      → require_owned_live_claim now i other db ≡ err ApiErrorCode.moderation_claim_required
  unfolding require_owned_live_claim
  gate-over m e other h over = ground arith

  gate-owner :
      (m e : ℕ)
      → holder (select (unreleased i) db.claims) ≡ some (m, e)
      → now.js_now < e
      → is_ok (require_owned_live_claim now i m db) ≡ true
  unfolding require_owned_live_claim
  gate-owner m e h live = ground arith

  claim-other :
      (ttl m e other : ℕ)
      → claimable i db ≡ true
      → holder (select (unreleased i) db.claims) ≡ some (m, e)
      → other ≢ m
      → now.js_now < e
      → claim_listing now ttl other i db ≡ err ApiErrorCode.moderation_claimed_by_other
  unfolding claim_listing
  claim-other ttl m e other c h apart live = ground arith

module _ (clock : Clock) (ttl moderator i : ℕ) (db : Db) where
  -- A claim that is granted is the moderator's own for its whole term, which the configuration
  -- sets. Until it expires that moderator passes the gate of moderation writes, and any other is
  -- refused, at the gate as well as with a claim of their own. Once it has expired the gate refuses
  -- everyone.
  pub claim_listing_excludes :
      {dto : ClaimDto} {db' : Db}
      → claim_listing clock ttl moderator i db ≡ ok (dto, db')
      → (now : Clock) (other : ℕ) → other ≢ moderator
      → (dto.expires_at ≡ clock.js_now + ttl * 1000)
        × (now.js_now < dto.expires_at
            → is_ok (require_owned_live_claim now i moderator db') ≡ true)
        × (now.js_now < dto.expires_at
            → require_owned_live_claim now i other db'
              ≡ err ApiErrorCode.moderation_claimed_by_other)
        × (now.js_now < dto.expires_at
            → claim_listing now ttl other i db' ≡ err ApiErrorCode.moderation_claimed_by_other)
        × ((anyone : ℕ)
            → dto.expires_at ≤ now.js_now
            → require_owned_live_claim now i anyone db'
              ≡ err ApiErrorCode.moderation_claim_required)
  claim_listing_excludes {dto} {db'} h now other apart =
      let held = claimed-holder clock ttl moderator i db h in
      let until = clock.js_now + ttl * 1000 in
      (
        held.1,
        λ live. gate-owner i db' now moderator until held.0 (omega (arith, held.1, live)),
        λ live.
            gate-other i db' now moderator until other held.0 apart (omega (arith, held.1, live)),
        λ live.
            claim-other i db' now ttl moderator until other
              (claimable_still clock ttl moderator i db h) held.0 apart
              (omega (arith, held.1, live)),
        λ anyone over.
            gate-over i db' now moderator until anyone held.0 (omega (arith, held.1, over)),
      )

-- A request to claim: who asks, for which listing.
abbrev pub Request : Type 0
Request = Clock × ℕ × ℕ

abbrev pub claim_all : ℕ → List Request → Db → Db
claim_all ttl [] db = db
claim_all ttl ((clock, moderator, i) ∷ rest) db =
    claim_all ttl rest (after db (claim_listing clock ttl moderator i db))

abbrev pub OneClaim : Db → Type 0
OneClaim db = (j : ℕ) → count (unreleased j) db.claims ≤ 1

replaced-OneClaim :
    (i j now : ℕ) (l : List ModerationClaim) (c new : ModerationClaim)
    → select (unreleased i) l ≡ some c
    → new.listing_id ≡ i
    → count (unreleased j) l ≤ 1
    → count (unreleased j) (new ∷ update (releasable c.id) (released now) l) ≤ 1
unfolding count
replaced-OneClaim i j now l c new h e u = ground (
  arith,
  select_holds (unreleased i) l h,
  count-update-le (releasable c.id) (unreleased j) (released now) l (λ x p q. ground arith),
  same_listing,
)
  where
    same_listing :
        i ≡ j
        → suc (count (unreleased j) (update (releasable c.id) (released now) l))
          ≤ count (unreleased j) l
    same_listing k =
        count-update-lt (releasable c.id) (unreleased j) (released now) l
          (ap (λ n. select (unreleased n) l) (sym k) ∙ h)
          (ground (arith, select_holds (unreleased i) l h)) (λ y p. ground arith)

claim-OneClaim :
    (clock : Clock) (ttl moderator i : ℕ) (db : Db)
    → OneClaim db
    → OneClaim (after db (claim_listing clock ttl moderator i db))
unfolding claim_listing count
claim-OneClaim clock ttl moderator i db one j =
    elim (Option-cases (select (unreleased i) db.claims)) [
      | inl e ↦ ground (arith, e, one j, count_empty (unreleased i) db.claims e)
      | inr (c, e) ↦ ground (
        arith,
        e,
        one j,
        count-update (claim_of c.id) (unreleased j) (extended (clock.js_now + ttl * 1000)) db.claims
            (λ x. refl),
        replaced-OneClaim i j clock.db_now db.claims c
            (new_claim db.next_id i moderator clock.db_now (clock.js_now + ttl * 1000)) e refl
            (one j),
      )
    ]

-- No sequence of requests to claim, by any moderators at any times, gives a listing a second
-- unreleased claim, if none had two before.
pub claim_all-OneClaim :
    (ttl : ℕ) (requests : List Request) (db : Db)
    → OneClaim db
    → OneClaim (claim_all ttl requests db)
claim_all-OneClaim ttl [] db one = one
claim_all-OneClaim ttl ((clock, moderator, i) ∷ rest) db one =
    claim_all-OneClaim ttl rest _ (claim-OneClaim clock ttl moderator i db one)

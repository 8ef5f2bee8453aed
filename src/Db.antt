-- ===== src/Db.antt =====
-- The database that the services share, and the transactions over it
-- (src/lib/server/db/client.ts: `withTransaction` commits on return and rolls back on a throw).
pub mod Errors
pub mod Listings
pub mod Payments
pub mod Logs
pub mod Settings
pub mod Moderation
use avtosh.Common.{ℕ, ◌+◌, Bool, true, false, Option, none, some, List, [], ◌∷◌, Result, ok, err}
use Errors.{ApiErrorCode}
use Listings.{Listing, EditRevision, Image}
use Payments.{Payment, Attempt, ListingPeriod, Promotion, Publication, PremiumCampaign}
use Logs.{Audit, OutboxEvent, StatusHistory}
use Moderation.{ModerationClaim, Upload, Adjustment, Review}

pub record Db : Type 0 where
  pub listings : List Listing
  pub listing_features : List (ℕ × ℕ)
  pub listing_images : List Image
  pub revisions : List EditRevision
  pub edit_images : List Image
  pub payments : List Payment
  pub attempts : List Attempt
  pub periods : List ListingPeriod
  pub promotions : List Promotion
  pub publications : List Publication
  pub audits : List Audit
  pub outbox : List OutboxEvent
  pub history : List StatusHistory
  pub uploads : List Upload
  pub claims : List ModerationClaim
  pub adjustments : List Adjustment
  pub reviews : List Review
  pub campaigns : List PremiumCampaign
  pub settings : Settings.Settings
  pub next_id : ℕ

-- `now()` of the transaction, and `Date.now()` of the process.
pub record Clock : Type 0 where
  pub db_now : ℕ
  pub js_now : ℕ

-- The body of a transaction: it reads and writes the database, or throws.
abbrev pub Tx : Type 0 → Type 0
Tx A = Db → Result ApiErrorCode (A × Db)

infixl 5 ◌>>=◌ ◌>>◌
abbrev pub ◌>>=◌ : {A B : Type 0} → Tx A → (A → Tx B) → Tx B
◌>>=◌ m f db = elim (m db) [ err e ↦ err e | ok (a, db') ↦ f a db' ]

abbrev pub ◌>>◌ : {B : Type 0} → Tx (Unit {0}) → Tx B → Tx B
m >> k = m >>= λ _. k

abbrev pub return : {A : Type 0} → A → Tx A
return a db = ok (a, db)

abbrev pub throw : {A : Type 0} → ApiErrorCode → Tx A
throw e db = err e

abbrev pub read : {A : Type 0} → (Db → A) → Tx A
read f db = ok (f db, db)

abbrev pub write : (Db → Db) → Tx (Unit {0})
write f db = ok (tt, f db)

-- The database after `withTransaction`: what the body made of it, or the old one if it threw.
abbrev pub after : {A : Type 0} → Db → Result ApiErrorCode (A × Db) → Db
after db (ok (a, db')) = db'
after db (err e) = db

abbrev pub insert_audit : Audit → Tx (Unit {0})
insert_audit a = write (λ db. record db { audits = a ∷ db.audits })

abbrev pub insert_outbox_event : OutboxEvent → Tx (Unit {0})
insert_outbox_event e = write (λ db. record db { outbox = e ∷ db.outbox })

abbrev pub insert_status_history : StatusHistory → Tx (Unit {0})
insert_status_history h = write (λ db. record db { history = h ∷ db.history })

-- A check or a resolution that only throws, inside a transaction.
abbrev pub lift : {A : Type 0} → Result ApiErrorCode A → Tx A
lift (ok a) db = ok (a, db)
lift (err e) db = err e

abbrev pub require_some : {A : Type 0} → ApiErrorCode → Option A → Tx A
require_some e (some a) db = ok (a, db)
require_some e none db = err e

abbrev pub guard : Bool → ApiErrorCode → Tx (Unit {0})
guard true e db = ok (tt, db)
guard false e db = err e

-- ===== src/Payment/Attempts.antt =====
-- The attempts of a payment: one active at most, whatever requests, providers and verifications
-- do, and one owner of the initiation.
use avtosh.Common.{
  ℕ, ◌+◌, ◌≤◌, ◌≡◌, refl, Bool, true, false, none, some, List, [], ◌∷◌, arith, ok, err, select,
  exists, count, update, count-update-le, exists-select, count_empty,
}
use avtosh.Db.{Db, Clock, after}
use avtosh.Db.Payments.{Payment, Attempt, ProviderStatus, is_open_payment}
use avtosh.Payment.Store.{
  of_payment_id, active_of, new_claim, unfilled, filled, ProviderOrder, of_attempt_id, observed,
  terminalized,
}
use avtosh.Payment.Checkout.{Claim, ProviderFailure, obtain_claim, release_claim, persist_order}

abbrev pub OneActive : List Attempt → Type 0
OneActive rows = (i : ℕ) → count (active_of i) rows ≤ 1

-- Each statement on the attempts keeps the count of the active ones, or lowers it.
filled-count :
    (k i : ℕ) (order : ProviderOrder) (rows : List Attempt)
    → count (active_of i) (update (unfilled k) (filled order) rows) ≤ count (active_of i) rows
filled-count k i order rows = count-update-le _ _ _ rows (λ x p h. ground arith)

observed-count :
    (k i : ℕ) (s : ProviderStatus) (rows : List Attempt)
    → count (active_of i) (update (of_attempt_id k) (observed s) rows) ≤ count (active_of i) rows
observed-count k i s rows = count-update-le _ _ _ rows (λ x p h. ground arith)

terminalized-count :
    (k i : ℕ) (s : ProviderStatus) (b : Bool) (rows : List Attempt)
    → count (active_of i) (update (of_attempt_id k) (terminalized s b) rows)
      ≤ count (active_of i) rows
terminalized-count k i s b rows = count-update-le _ _ _ rows (λ x p h. ground arith)

claimed-count :
    (k j now i : ℕ) (rows : List Attempt)
    → OneActive rows
    → exists (active_of j) rows ≡ false
    → count (active_of i) (new_claim k j now ∷ rows) ≤ 1
unfolding count
claimed-count k j now i rows one free =
    ground (arith, one i, exists-select (active_of j) rows, count_empty (active_of j) rows)

module _ (clock : Clock) (db : Db) (one : OneActive db.attempts) where
  obtain-OneActive : (i : ℕ) → OneActive (after db (obtain_claim clock i db)).attempts
  unfolding obtain_claim
  obtain-OneActive i j = grind (
    arith,
    one j,
    λ (e : exists (active_of i) db.attempts ≡ false).
        claimed-count db.next_id i clock.db_now j db.attempts one e,
    λ (k : ℕ). terminalized-count k j ProviderStatus.initiation_abandoned false db.attempts,
    λ (k : ℕ) (e : exists (active_of i) (ended k) ≡ false).
        claimed-count db.next_id i clock.db_now j (ended k) (ended-OneActive k) e,
  )
    where
      ended : ℕ → List Attempt
      ended k =
          update (of_attempt_id k) (terminalized ProviderStatus.initiation_abandoned false)
            db.attempts

      ended-OneActive : (k : ℕ) → OneActive (ended k)
      ended-OneActive k l = omega (
        arith,
        one l,
        terminalized-count k l ProviderStatus.initiation_abandoned false db.attempts,
      )

  release-OneActive :
      (k : ℕ) (f : ProviderFailure) → OneActive (after db (release_claim k f db)).attempts
  unfolding release_claim
  release-OneActive k ProviderFailure.network j =
      omega
        (arith, one j, terminalized-count k j ProviderStatus.initiation_ambiguous false db.attempts)
  release-OneActive k ProviderFailure.other_failure j =
      omega
        (arith, one j, terminalized-count k j ProviderStatus.initiation_failed false db.attempts)

  persist-OneActive :
      (i k : ℕ) (order : ProviderOrder) → OneActive (after db (persist_order i k order db)).attempts
  unfolding persist_order
  persist-OneActive i k order j = omega (arith, one j, filled-count k j order db.attempts)

-- A request within the lease of a claim that is not filled yet waits, and writes nothing.
obtain_claim_waits :
    (clock : Clock) (db : Db) (i : ℕ) (p : Payment) (a : Attempt)
    → select (of_payment_id i) db.payments ≡ some p
    → is_open_payment p.status ≡ true
    → select (active_of i) db.attempts ≡ some a
    → a.provider_order_id ≡ none
    → clock.js_now ≤ a.created_at + 120000
    → obtain_claim clock i db ≡ ok (Claim.wait, db)
unfolding obtain_claim
obtain_claim_waits clock db i p a found eligible current unfinished within =
    ground (arith, found, current)

-- Requests for one payment, one after another, each at its own clock.
abbrev pub obtain_all : List Clock → ℕ → Db → List Claim
obtain_all [] i db = []
obtain_all (clock ∷ clocks) i db = elim (obtain_claim clock i db) [
  | err e ↦ obtain_all clocks i db
  | ok (claim, db') ↦ claim ∷ obtain_all clocks i db'
]

abbrev Within : ℕ → List Clock → Type 0
Within limit [] = Unit {0}
Within limit (c ∷ cs) = (c.js_now ≤ limit) × Within limit cs

-- What a request that waits gets.
abbrev pub all_wait : List Clock → List Claim
all_wait [] = []
all_wait (c ∷ cs) = Claim.wait ∷ all_wait cs

obtain_all_wait :
    (clocks : List Clock) (db : Db) (i : ℕ) (p : Payment) (a : Attempt)
    → select (of_payment_id i) db.payments ≡ some p
    → is_open_payment p.status ≡ true
    → select (active_of i) db.attempts ≡ some a
    → a.provider_order_id ≡ none
    → Within (a.created_at + 120000) clocks
    → obtain_all clocks i db ≡ all_wait clocks
obtain_all_wait [] db i p a found eligible current unfinished within = refl
obtain_all_wait (c ∷ cs) db i p a found eligible current unfinished within =
    rw (obtain_claim_waits c db i p a found eligible current unfinished within.0, obtain_all)
      (rw (obtain_all_wait cs db i p a found eligible current unfinished within.1))

obtain_claim_creates :
    (clock : Clock) (db : Db) (i : ℕ) (p : Payment)
    → select (of_payment_id i) db.payments ≡ some p
    → is_open_payment p.status ≡ true
    → select (active_of i) db.attempts ≡ none
    → obtain_claim clock i db
      ≡ ok (
        Claim.create db.next_id,
        record db {
          attempts = new_claim db.next_id i clock.db_now ∷ db.attempts;
          next_id = db.next_id + 1;
        },
      )
unfolding obtain_claim
obtain_claim_creates clock db i p found eligible free =
    ground (arith, found, free, exists-select (active_of i) db.attempts)

-- Of any number of requests that ask for the checkout of one payable payment without an active
-- attempt, the first gets the initiation claim and every later one within the lease waits: the
-- provider is asked for one order.
pub obtain_all_exclusive :
    (clock : Clock) (clocks : List Clock) (db : Db) (i : ℕ) (p : Payment)
    → select (of_payment_id i) db.payments ≡ some p
    → is_open_payment p.status ≡ true
    → select (active_of i) db.attempts ≡ none
    → Within (clock.db_now + 120000) clocks
    → obtain_all (clock ∷ clocks) i db ≡ Claim.create db.next_id ∷ all_wait clocks
unfolding select
obtain_all_exclusive clock clocks db i p found eligible free within =
    rw (obtain_claim_creates clock db i p found eligible free, obtain_all)
      (rw (
        obtain_all_wait clocks claimed i p (new_claim db.next_id i clock.db_now) found eligible
          (ground arith) refl within))
  where
    claimed : Db
    claimed = record db {
      attempts = new_claim db.next_id i clock.db_now ∷ db.attempts;
      next_id = db.next_id + 1;
    }

-- ===== src/Lifecycle/Invariant.antt =====
-- What holds of the listings and the edit revisions between two lifecycle operations.
use avtosh.Common.{
  ℕ, ◌≤◌, ◌≡◌, Bool, true, false, List, [], ◌∷◌, arith, exists, count, update, is_some, All,
  All-update, count-update-le, exists-select, count_empty,
}
use avtosh.Db.{Db, Clock, after}
use avtosh.Db.Listings.{Listing, EditRevision}
use avtosh.Lifecycle.Store.{
  open_of, deactivatable, deactivated, requestable, requested, clearable, cleared, request_pending,
  unrequested, cancellable, cancelled,
}
use avtosh.Lifecycle.Edits.{get_or_create_edit_revision, cancel_open_edit_revision}
use avtosh.Lifecycle.Visibility.{
  deactivate_listing, reactivate_listing, try_finalize_seller_reactivation_by_id,
}
use avtosh.Lifecycle.Ops.{Op, run, run_all}

-- A reactivation is asked for only while the seller has hidden the listing.
abbrev pub RequestOfHidden : Listing → Type 0
RequestOfHidden l =
    is_some l.seller_reactivation_requested_at ≡ true → is_some l.seller_deactivated_at ≡ true

pub record Inv (db : Db) : Type 0 where
  pub requests : All RequestOfHidden db.listings
  pub one_open : (i : ℕ) → count (open_of i) db.revisions ≤ 1

abbrev Requests : List Listing → Type 0
Requests = All RequestOfHidden

deactivated-Requests :
    (i e now : ℕ) (l : List Listing)
    → Requests l
    → Requests (update (deactivatable i e) (deactivated now) l)
deactivated-Requests i e now l = All-update RequestOfHidden _ _ l (λ x p h. ground arith)

requested-Requests :
    (i e now : ℕ) (l : List Listing)
    → Requests l
    → Requests (update (requestable i e) (requested now) l)
requested-Requests i e now l = All-update RequestOfHidden _ _ l (λ x p h. ground arith)

unrequested-Requests :
    (i : ℕ) (l : List Listing) → Requests l → Requests (update (request_pending i) unrequested l)
unrequested-Requests i l = All-update RequestOfHidden _ _ l (λ x p h. ground arith)

cleared-Requests :
    (now : ℕ) (b : Bool) (i : ℕ) (l : List Listing)
    → Requests l
    → Requests (update (clearable now b i) cleared l)
cleared-Requests now b i l = All-update RequestOfHidden _ _ l (λ x p h. ground arith)

module _ (clock : Clock) (db : Db) (inv : Inv db) where
  deactivate-Requests :
      (user i e : ℕ) → Requests (after db (deactivate_listing clock user i e db)).listings
  unfolding deactivate_listing
  deactivate-Requests user i e =
      ground (arith, inv.requests, deactivated-Requests i e clock.db_now db.listings)

  finalize-Requests :
      (i : ℕ) → Requests (after db (try_finalize_seller_reactivation_by_id clock i db)).listings
  unfolding try_finalize_seller_reactivation_by_id
  finalize-Requests i = grind (
    arith,
    inv.requests,
    λ (b : Bool) (j : ℕ). cleared-Requests clock.db_now b j db.listings inv.requests,
  )

  reactivate-Requests :
      (user i e : ℕ) → Requests (after db (reactivate_listing clock user i e db)).listings
  unfolding reactivate_listing
  reactivate-Requests user i e = grind (
    arith,
    inv.requests,
    λ (k : ℕ). requested-Requests i k clock.db_now db.listings inv.requests,
    λ (k : ℕ) (b : Bool) (j : ℕ).
        cleared-Requests clock.db_now b j _
          (requested-Requests i k clock.db_now db.listings inv.requests),
  )

  cancel-Requests :
      (user i e : ℕ) → Requests (after db (cancel_open_edit_revision clock user i e db)).listings
  unfolding cancel_open_edit_revision
  cancel-Requests user i e = ground (arith, inv.requests, unrequested-Requests i db.listings)

  edit-Requests :
      (user i : ℕ) → Requests (after db (get_or_create_edit_revision user i db)).listings
  unfolding get_or_create_edit_revision
  edit-Requests user i = ground (arith, inv.requests)

  -- Operations other than create-or-get and cancel leave the revisions alone.
  deactivate-revisions :
      (user i e : ℕ) → (after db (deactivate_listing clock user i e db)).revisions ≡ db.revisions
  unfolding deactivate_listing
  deactivate-revisions user i e = ground arith

  finalize-revisions :
      (i : ℕ)
      → (after db (try_finalize_seller_reactivation_by_id clock i db)).revisions ≡ db.revisions
  unfolding try_finalize_seller_reactivation_by_id
  finalize-revisions i = ground arith

  reactivate-revisions :
      (user i e : ℕ) → (after db (reactivate_listing clock user i e db)).revisions ≡ db.revisions
  unfolding reactivate_listing
  reactivate-revisions user i e = ground arith

  cancelled-one_open :
      (k e i : ℕ)
      → count (open_of i) (update (cancellable k e) (cancelled clock.db_now) db.revisions)
        ≤ count (open_of i) db.revisions
  cancelled-one_open k e i = count-update-le _ _ _ db.revisions (λ x p h. ground arith)

  cancel-one_open :
      (user i e j : ℕ)
      → count (open_of j) (after db (cancel_open_edit_revision clock user i e db)).revisions
        ≤ count (open_of j) db.revisions
  unfolding cancel_open_edit_revision
  cancel-one_open user i e j = grind (arith, λ (k : ℕ). cancelled-one_open k e j)

  created-one_open :
      (i : ℕ) (r : EditRevision)
      → r.listing_id ≡ i
      → exists (open_of i) db.revisions ≡ false
      → (j : ℕ) → count (open_of j) (r ∷ db.revisions) ≤ 1
  unfolding count
  created-one_open i r e none_open j = ground (
    arith,
    inv.one_open j,
    exists-select (open_of i) db.revisions,
    count_empty (open_of i) db.revisions,
  )

  edit-one_open :
      (user i j : ℕ)
      → count (open_of j) (after db (get_or_create_edit_revision user i db)).revisions ≤ 1
  unfolding get_or_create_edit_revision
  edit-one_open user i j = grind (
    arith,
    inv.one_open j,
    λ (k : ℕ) (r : EditRevision) (p : r.listing_id ≡ k)
          (q : exists (open_of k) db.revisions ≡ false).
        created-one_open k r p q j,
  )

  -- Every lifecycle operation keeps the invariant: a reactivation request stands only on a hidden
  -- listing, and no listing has two open edit revisions.
  pub run-Inv : (op : Op) → Inv (run clock op db)
  run-Inv (Op.get_or_create_edit user i) = record {
    requests = edit-Requests user i;
    one_open = edit-one_open user i;
  }
  run-Inv (Op.cancel_edit user i e) = record {
    requests = cancel-Requests user i e;
    one_open = λ j. omega (arith, cancel-one_open user i e j, inv.one_open j);
  }
  run-Inv (Op.deactivate user i e) = record {
    requests = deactivate-Requests user i e;
    one_open = λ j. rw (deactivate-revisions user i e) (inv.one_open j);
  }
  run-Inv (Op.reactivate user i e) = record {
    requests = reactivate-Requests user i e;
    one_open = λ j. rw (reactivate-revisions user i e) (inv.one_open j);
  }
  run-Inv (Op.finalize i) = record {
    requests = finalize-Requests i;
    one_open = λ j. rw (finalize-revisions i) (inv.one_open j);
  }

-- From a database that meets the invariant, every history of lifecycle operations, by any users
-- and at any clocks, ends in one that does.
pub run_all-Inv : (ops : List (Clock × Op)) (db : Db) → Inv db → Inv (run_all ops db)
run_all-Inv [] db inv = inv
run_all-Inv ((clock, op) ∷ ops) db inv = run_all-Inv ops (run clock op db) (run-Inv clock db inv op)

-- ===== src/Content/Revised.antt =====
-- An update of an edit revision claims its version; a submission can be repeated.
use avtosh.Common.{
  ℕ, ◌≤◌, ◌<◌, ◌≡◌, refl, sym, ap, ◌∙◌, ◌⊎◌, inl, inr, ◌≢◌, Bool, true, false, none, some, arith,
  ◌==◌, select, exists, update, count, ok, err, Result-cases, Option-cases, Bool-cases, is_some,
  select-update, select-update_kept, select_holds, touch_option, ==_refl, count-update-lt,
  count_zero-select,
}
use avtosh.Db.{Db, Clock}
use avtosh.Db.Errors.{ApiErrorCode}
use avtosh.Db.Listings.{Listing, EditRevision, EditData, is_edit_pending, is_deleted}
use avtosh.Db.Settings.{SubmissionSettings, get_submission_settings}
use avtosh.Submission.Catalog.{Catalog}
use avtosh.Submission.Store.{pending_of, expired_upload}
use avtosh.Lifecycle.Store.{of_owner, open_of, requestable, requested}
use avtosh.Lifecycle.Edits.{editable_lifecycle}
use avtosh.Content.Selections.{SellerContentPatch, Texts}
use avtosh.Content.Adjusted.{resolve_adjusted_data}
use avtosh.Content.Checks.{assert_revision_submittable}
use avtosh.Content.Revise.{
  editable_at, revised, submitted_edit, update_open, update_edit_revision, asks_to_show,
  record_activation, submit_editable, submit_open, submit_edit_revision, EditSubmissionResultDto,
  edit_submission_of,
}

-- What every call on an open edit needs.
visible :
    (catalog : Catalog) (texts : Texts) (user i expected : ℕ) (patch : SellerContentPatch) (db : Db)
    {r : EditRevision} {e : Db}
    → update_edit_revision catalog texts user i expected patch db ≡ ok (r, e)
    → update_open catalog texts expected patch (select (open_of i) db.revisions) db ≡ ok (r, e)
unfolding update_edit_revision
visible catalog texts user i expected patch db h =
    elim (Option-cases (select (of_owner i user) db.listings)) [
      | inl z ↦ absurd (ground (arith, h, z))
      | inr (l, z) ↦ elim (Bool-cases (is_some l.deleted_at)) [
        | inl v ↦ absurd (ground (arith, h, z, v))
        | inr v ↦ elim (Bool-cases (is_deleted l.status)) [
          | inl w ↦ absurd (ground (arith, h, z, v, w))
          | inr w ↦ ground (arith, h, z, v, w)
        ]
      ]
    ]

abbrev Updated : Catalog → Texts → ℕ → SellerContentPatch → EditRevision → Db → Db → Type 0
Updated catalog texts expected patch edit db e =
    (data' : EditData) × (row : EditRevision) × (resolve_adjusted_data catalog texts edit.snapshot
        patch
      ≡ ok data')
    × (is_edit_pending edit.status ≡ false)
    × (select (editable_at edit.id expected) db.revisions ≡ some row)
    × (e ≡ record db {
      revisions = update (editable_at edit.id expected) (revised data') db.revisions;
    })

open-Updated :
    (catalog : Catalog) (texts : Texts) (expected : ℕ) (patch : SellerContentPatch)
    (edit : EditRevision) (db : Db) {r : EditRevision} {e : Db}
    → update_open catalog texts expected patch (some edit) db ≡ ok (r, e)
    → Updated catalog texts expected patch edit db e
unfolding update_open
open-Updated catalog texts expected patch edit db {r} {e} h =
    elim (Bool-cases (is_edit_pending edit.status)) [
      | inl p ↦ absurd (ground (arith, h, p))
      | inr p ↦ elim (Result-cases (resolve_adjusted_data catalog texts edit.snapshot patch)) [
        | inl (x, k) ↦ absurd (ground (arith, h, p, k))
        | inr (data', k) ↦
            elim (Option-cases (select (editable_at edit.id expected) db.revisions)) [
              | inl o ↦ absurd (ground (arith, h, p, k, o))
              | inr (row, o) ↦ (data', row, k, p, o, ground (arith, h, p, k, o))
            ]
      ]
    ]

module _ (catalog : Catalog) (texts : Texts) (user i expected : ℕ) (patch : SellerContentPatch)
    (db : Db) (edit : EditRevision) where
  -- An update that goes through on the open edit at its current version puts the resolved patch into
  -- the snapshot, at the next version, and changes nothing else in the database. Where no two rows
  -- have the edit's id and version, no other update that expects the old version goes through.
  pub update_edit_revision_claims :
      {r : EditRevision} {db' : Db}
      → select (open_of i) db.revisions ≡ some edit
      → edit.revision ≡ expected
      → count (editable_at edit.id expected) db.revisions ≤ 1
      → update_edit_revision catalog texts user i expected patch db ≡ ok (r, db')
      → (data' : EditData) × (resolve_adjusted_data catalog texts edit.snapshot patch ≡ ok data')
        × (select (open_of i) db'.revisions ≡ some (revised data' edit))
        × (db' ≡ record db {
          revisions = update (editable_at edit.id expected) (revised data') db.revisions;
        })
        × ((texts' : Texts) (user' : ℕ) (patch' : SellerContentPatch) (r' : EditRevision)
              (db'' : Db)
            → update_edit_revision catalog texts' user' i expected patch' db' ≢ ok (r', db''))
  update_edit_revision_claims {r} {db'} found current one h =
      let (data', row, k, p, o, e) = updated in
      let now_open : select (open_of i) db'.revisions ≡ some (revised data' edit) =
        ap (λ t. select (open_of i) t.revisions) e
        ∙ select-update (editable_at edit.id expected) (open_of i) (revised data') db.revisions
            (λ x. refl)
        ∙ ap (touch_option (editable_at edit.id expected) (revised data')) found
        ∙ ground (
          arith,
          p,
          current,
          select_holds (open_of i) db.revisions found,
          ==_refl edit.id,
          ==_refl edit.revision,
        ) in
      let gone : select (editable_at edit.id expected) db'.revisions ≡ none =
        ap (λ t. select (editable_at edit.id expected) t.revisions) e
        ∙ count_zero-select (editable_at edit.id expected)
            (update (editable_at edit.id expected) (revised data') db.revisions)
            (omega (arith, one, fewer data' row o)) in
      (
        data',
        k,
        now_open,
        e,
        λ texts' user' patch' r' db'' h'.
            let (data'', row', k', p', o', e') =
              open-Updated catalog texts' expected patch' (revised data' edit) db' (
                ap (λ t. update_open catalog texts' expected patch' t db') (sym now_open)
                ∙ visible catalog texts' user' i expected patch' db' h') in
            ground (arith, gone, o'),
      )
    where
      updated : Updated catalog texts expected patch edit db db'
      updated = open-Updated catalog texts expected patch edit db (
          ap (λ t. update_open catalog texts expected patch t db) (sym found)
          ∙ visible catalog texts user i expected patch db h)

      fewer :
          (data' : EditData) (row : EditRevision)
          → select (editable_at edit.id expected) db.revisions ≡ some row
          → count
              (editable_at edit.id expected)
              (update (editable_at edit.id expected) (revised data') db.revisions)
            < count (editable_at edit.id expected) db.revisions
      fewer data' row o =
          count-update-lt (editable_at edit.id expected) (editable_at edit.id expected)
            (revised data') db.revisions o
            (select_holds (editable_at edit.id expected) db.revisions o) (λ y h. passed data' y h)
        where
          passed :
              (data' : EditData) (y : EditRevision)
              → editable_at edit.id expected y ≡ true
              → editable_at edit.id expected (revised data' y) ≡ false
          passed data' y h = ground (arith, h)

-- Of the listings a submission changes at most the request to show one.
activation_changes :
    (clock : Clock) (user i : ℕ) (l : Listing) (activate : Bool) (d : Db) {b : Bool} {e : Db}
    → record_activation clock user i l activate d ≡ ok (b, e)
    → ((e.listings ≡ d.listings)
        ⊎ (e.listings ≡ update (requestable i l.revision) (requested clock.db_now) d.listings))
      × (e.revisions ≡ d.revisions)
      × (e.settings ≡ d.settings)
unfolding record_activation
activation_changes clock user i l activate d {b} {e} h =
    elim (Bool-cases (asks_to_show clock activate l)) [
      | inr a ↦ ground (arith, h, a)
      | inl a ↦ elim (Bool-cases (exists (requestable i l.revision) d.listings)) [
        | inl x ↦ ground (arith, h, a, x)
        | inr x ↦ ground (arith, h, a, x)
      ]
    ]

abbrev Submitted :
    Clock → ℕ → ℕ → Listing → EditRevision → EditSubmissionResultDto → Db → Db → Type 0
Submitted clock i expected l edit r db e =
    (row : EditRevision) × (requested' : Bool) × (edit.revision ≡ expected)
    × (select (editable_at edit.id expected) db.revisions ≡ some row)
    × (r ≡ edit_submission_of requested' (submitted_edit clock.db_now row))
    × (e.revisions
        ≡ update (editable_at edit.id expected) (submitted_edit clock.db_now) db.revisions)
    × (e.settings ≡ db.settings)
    × ((e.listings ≡ db.listings)
        ⊎ (e.listings ≡ update (requestable i l.revision) (requested clock.db_now) db.listings))

editable-Submitted :
    (clock : Clock) (catalog : Catalog) (user i expected : ℕ) (activate : Bool) (image_min : ℕ)
    (l : Listing) (edit : EditRevision) (db : Db) {r : EditSubmissionResultDto} {e : Db}
    → submit_editable clock catalog user i expected activate image_min l edit db ≡ ok (r, e)
    → Submitted clock i expected l edit r db e
unfolding submit_editable
editable-Submitted clock catalog user i expected activate image_min l edit db {r} {e} h =
    elim (Bool-cases (edit.revision == expected)) [
      | inr v ↦ absurd (ground (arith, h, v))
      | inl v ↦ elim (Result-cases (assert_revision_submittable catalog db edit image_min)) [
        | inl (x, c) ↦ absurd (ground (arith, h, v, c))
        | inr (u, c) ↦ elim (Option-cases (select (editable_at edit.id expected) db.revisions)) [
          | inl o ↦ absurd (ground (arith, h, v, c, o))
          | inr (row, o) ↦
              elim (Result-cases (record_activation clock user i l activate (frozen_at db))) [
                | inl (x, k) ↦ absurd (ground (arith, h, v, c, o, k))
                | inr ((b, d), k) ↦
                    let all = activation_changes clock user i l activate (frozen_at db) k in
                    (
                      row,
                      b,
                      ground (arith, v),
                      o,
                      ground (arith, h, v, c, o, k),
                      ground (arith, h, v, c, o, k, all.1),
                      ground (arith, h, v, c, o, k, all.2),
                      settle_listings d (all.0) (ground (arith, h, v, c, o, k)),
                    )
              ]
        ]
      ]
    ]
  where
    frozen_at : Db → Db
    frozen_at db = record db {
      revisions = update (editable_at edit.id expected) (submitted_edit clock.db_now) db.revisions;
      uploads = update (pending_of i) expired_upload db.uploads;
    }

    settle_listings :
        (d : Db)
        → ((d.listings ≡ db.listings)
            ⊎ (d.listings ≡ update (requestable i l.revision) (requested clock.db_now) db.listings))
        → e.listings ≡ d.listings
        → (e.listings ≡ db.listings)
          ⊎ (e.listings ≡ update (requestable i l.revision) (requested clock.db_now) db.listings)
    settle_listings d (inl x) y = inl (y ∙ x)
    settle_listings d (inr x) y = inr (y ∙ x)

module _ (clock : Clock) (catalog : Catalog) (user i expected : ℕ) (activate : Bool) (db : Db)
    (l : Listing) (edit : EditRevision) where
  submission_facts :
      {r : EditSubmissionResultDto} {db' : Db}
      → select (of_owner i user) db.listings ≡ some l
      → select (open_of i) db.revisions ≡ some edit
      → is_edit_pending edit.status ≡ false
      → submit_edit_revision clock catalog user i expected activate db ≡ ok (r, db')
      → (s : SubmissionSettings) × (get_submission_settings db.settings ≡ some s)
        × (l.deleted_at ≡ none)
        × (is_deleted l.status ≡ false)
        × (editable_lifecycle l.status ≡ true)
        × (submit_editable clock catalog user i expected activate s.image_min l edit db
            ≡ ok (r, db'))
  unfolding submit_edit_revision submit_open
  submission_facts {r} {db'} owned found draft h =
      elim (Option-cases (get_submission_settings db.settings)) [
        | inl z ↦ absurd (ground (arith, h, z))
        | inr (s, z) ↦ elim (Option-cases l.deleted_at) [
          | inr (t, v) ↦ absurd (ground (arith, h, z, owned, v))
          | inl v ↦ elim (Bool-cases (is_deleted l.status)) [
            | inl w ↦ absurd (ground (arith, h, z, owned, v, w))
            | inr w ↦ elim (Bool-cases (editable_lifecycle l.status)) [
              | inr x ↦ absurd (ground (arith, h, z, owned, v, w, x))
              | inl x ↦ (s, z, v, w, x, ground (arith, h, z, owned, v, w, x, found, draft))
            ]
          ]
        ]
      ]

  -- A submission of an open edit that is not yet pending, and goes through, leaves that very content
  -- pending at the same version. A repetition by the owner, at any later time and with or without
  -- the wish to publish, is answered with that edit and changes nothing, and no one's request for
  -- another version goes through.
  pub submit_edit_revision_again :
      {r : EditSubmissionResultDto} {db' : Db}
      → select (of_owner i user) db.listings ≡ some l
      → select (open_of i) db.revisions ≡ some edit
      → is_edit_pending edit.status ≡ false
      → submit_edit_revision clock catalog user i expected activate db ≡ ok (r, db')
      → (select (open_of i) db'.revisions ≡ some (submitted_edit clock.db_now edit))
        × ((later : Clock) (again : Bool)
            → (requested' : Bool) × (submit_edit_revision later catalog user i expected again db'
                ≡ ok (edit_submission_of requested' (submitted_edit clock.db_now edit), db')))
        × ((later : Clock) (other : ℕ) (again : Bool)
            → other ≢ expected
            → submit_edit_revision later catalog user i other again db'
              ≡ err ApiErrorCode.listing_lifecycle_conflict)
  unfolding submit_edit_revision submit_open
  submit_edit_revision_again {r} {db'} owned found draft h =
      let (s, z, kept, alive, editable, rest) = submission_facts owned found draft h in
      let (row, b, current, o, said, revisions, settings, listings) =
        editable-Submitted clock catalog user i expected activate s.image_min l edit db rest in
      let now_open : select (open_of i) db'.revisions ≡ some (submitted_edit clock.db_now edit) =
        ap (select (open_of i)) revisions
        ∙ select-update_kept (editable_at edit.id expected) (open_of i)
            (submitted_edit clock.db_now) db.revisions (λ x p. stays_open x p)
        ∙ ap (touch_option (editable_at edit.id expected) (submitted_edit clock.db_now)) found
        ∙ ground (
          arith,
          draft,
          current,
          select_holds (open_of i) db.revisions found,
          ==_refl edit.id,
          ==_refl edit.revision,
        ) in
      let configured : get_submission_settings db'.settings ≡ some s =
        ap get_submission_settings settings ∙ z in
      let (m, here, m_kept, m_alive, m_editable) = still listings kept alive editable in
      (
        now_open,
        λ later again. (
          is_some m.seller_reactivation_requested_at,
          ground (
            arith,
            configured,
            here,
            m_kept,
            m_alive,
            m_editable,
            now_open,
            current,
            ==_refl expected,
          ),
        ),
        λ later other again n. elim (Bool-cases (edit.revision == other)) [
          | inl v ↦ absurd (n (ground (arith, v, current)))
          | inr v ↦ ground (arith, configured, here, m_kept, m_alive, m_editable, now_open, v)
        ],
      )
    where
      still :
          ((db'.listings ≡ db.listings)
            ⊎ (db'.listings
                ≡ update (requestable i l.revision) (requested clock.db_now) db.listings))
          → l.deleted_at ≡ none
          → is_deleted l.status ≡ false
          → editable_lifecycle l.status ≡ true
          → (m : Listing) × (select (of_owner i user) db'.listings ≡ some m)
            × (m.deleted_at ≡ none)
            × (is_deleted m.status ≡ false)
            × (editable_lifecycle m.status ≡ true)
      still (inl same) kept alive editable =
          (l, ap (select (of_owner i user)) same ∙ owned, kept, alive, editable)
      still (inr step) kept alive editable =
          let row : select (of_owner i user) db'.listings
              ≡ touch_option (requestable i l.revision) (requested clock.db_now) (some l) =
            ap (select (of_owner i user)) step
            ∙ select-update (requestable i l.revision) (of_owner i user) (requested clock.db_now)
                db.listings (λ x. refl)
            ∙ ap (touch_option (requestable i l.revision) (requested clock.db_now)) owned in
          elim (Bool-cases (requestable i l.revision l)) [
            | inl q ↦ (requested clock.db_now l, ground (arith, row, q), kept, alive, editable)
            | inr q ↦ (l, ground (arith, row, q), kept, alive, editable)
          ]

      stays_open :
          (x : EditRevision)
          → editable_at edit.id expected x ≡ true
          → open_of i (submitted_edit clock.db_now x) ≡ open_of i x
      stays_open x p = ground (arith, p)

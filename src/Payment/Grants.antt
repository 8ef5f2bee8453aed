-- ===== src/Payment/Grants.antt =====
-- Histories of a campaign: its grants, openings and stops.
use avtosh.Common.{
  ℕ, ◌+◌, ◌≤◌, ◌≡◌, ◌⊎◌, refl, sym, ap, ◌∙◌, inl, inr, Bool, true, false, none, some, List, [], ◌∷◌,
  arith, ◌==◌, select, exists, count, update, ok, Option-cases, Bool-cases, exists-select,
  count_empty, select_holds,
}
use avtosh.Db.{Db, Clock, after}
use avtosh.Db.Payments.{PromotionType, Promotion, PremiumCampaign}
use avtosh.Payment.Periods.{extension_base}
use avtosh.Payment.Campaigns.{
  enrolls_as, of_campaign, granted_to, stoppable, openable, enrolling_campaign, stopped_campaign,
  grant_campaign_premium, open_campaign_enrollment, stop_campaign, campaign_period,
  insert_campaign_promotion_period,
}

pub data CampaignOp : Type 0 where
  grant : Clock → ℕ → ℕ → CampaignOp
  opening : Clock → ℕ → CampaignOp
  stop : ℕ → CampaignOp

abbrev pub run_campaign : CampaignOp → Db → Db
run_campaign (CampaignOp.grant clock listing_id campaign_id) db =
    after db (grant_campaign_premium clock listing_id campaign_id db)
run_campaign (CampaignOp.opening clock campaign_id) db =
    after db (open_campaign_enrollment clock campaign_id db)
run_campaign (CampaignOp.stop campaign_id) db = after db (stop_campaign campaign_id db)

abbrev pub run_campaigns : List CampaignOp → Db → Db
run_campaigns [] db = db
run_campaigns (op ∷ ops) db = run_campaigns ops (run_campaign op db)

abbrev pub OneGrant : Db → Type 0
OneGrant db = (i c : ℕ) → count (granted_to i c) db.promotions ≤ 1

abbrev pub has_campaign : ℕ → Promotion → Bool
has_campaign c p = of_campaign p.campaign_id c

-- No row of the campaign is a draft or enrolling.
abbrev pub Closed : ℕ → Db → Type 0
Closed c db = exists (stoppable c) db.campaigns ≡ false

-- A grant adds nothing, or the first period of a listing in an enrolling campaign.
data Grown (now i c : ℕ) (campaigns : List PremiumCampaign) (rows : List Promotion)
    : List Promotion → Type 0 where
  no_grant : Grown now i c campaigns rows rows
  new_grant :
      (p : Promotion)
      → exists (enrolls_as now c) campaigns ≡ true
      → exists (granted_to i c) rows ≡ false
      → p.listing_id ≡ i
      → p.campaign_id ≡ some c
      → Grown now i c campaigns rows (p ∷ rows)

-- What the guarded insert does.
abbrev Inserted : Clock → ℕ → ℕ → ℕ → Db → Type 0
Inserted clock i c days db =
    (p : Promotion) × (insert_campaign_promotion_period clock i c days db
      ≡ ok (some p, record db { promotions = p ∷ db.promotions; next_id = db.next_id + 1 }))
    × (exists (enrolls_as clock.db_now c) db.campaigns ≡ true)
    × (exists (granted_to i c) db.promotions ≡ false)
    × (p.listing_id ≡ i)
    × (p.campaign_id ≡ some c)

insert_cases :
    (clock : Clock) (i c days : ℕ) (db : Db)
    → (insert_campaign_promotion_period clock i c days db ≡ ok (none, db))
      ⊎ Inserted clock i c days db
unfolding insert_campaign_promotion_period
insert_cases clock i c days db =
    elim (Bool-cases (exists (enrolls_as clock.db_now c) db.campaigns)) [
      | inr x ↦ inl (ground (arith, x))
      | inl x ↦ elim (Bool-cases (exists (granted_to i c) db.promotions)) [
        | inl y ↦ inl (ground (arith, x, y))
        | inr y ↦ inr (
          campaign_period db.next_id i c days clock.db_now
              (extension_base i PromotionType.premium clock.db_now db.promotions),
          ground (arith, x, y),
          x,
          y,
          refl,
          refl,
        )
      ]
    ]

grant-Grown :
    (clock : Clock) (i c : ℕ) (db : Db)
    → let e = after db (grant_campaign_premium clock i c db) in
      (e.campaigns ≡ db.campaigns) × Grown clock.db_now i c db.campaigns db.promotions e.promotions
unfolding grant_campaign_premium
grant-Grown clock i c db = elim (Option-cases (select (enrolls_as clock.db_now c) db.campaigns)) [
  | inl z ↦ rw z (refl, Grown.no_grant)
  | inr (campaign, z) ↦
      let key : campaign.id ≡ c =
        ground (arith, select_holds (enrolls_as clock.db_now c) db.campaigns z) in
      elim (insert_cases clock i campaign.id campaign.grant_days db) [
        | inl x ↦
            let same : (after db (grant_campaign_premium clock i c db)).promotions ≡ db.promotions =
              ground (arith, z, x) in
            (ground (arith, z, x), rw same Grown.no_grant)
        | inr (p, x, open_now, first, a, b) ↦
            let grown : (after db (grant_campaign_premium clock i c db)).promotions
                ≡ p ∷ db.promotions =
              ground (arith, z, x) in
            (
              ground (arith, z, x),
              rw grown
                  (Grown.new_grant p (rw key at open_now) (rw key at first) a (b ∙ ap some key)),
            )
      ]
]

Grown-count :
    (now i c : ℕ) (campaigns : List PremiumCampaign) (l m : List Promotion)
    → Grown now i c campaigns l m
    → ((j d : ℕ) → count (granted_to j d) l ≤ 1)
    → (j d : ℕ) → count (granted_to j d) m ≤ 1
unfolding count
Grown-count now i c campaigns l _ Grown.no_grant one j d = one j d
Grown-count now i c campaigns l _ (Grown.new_grant p x y k q) one j d =
    ground
      (arith, one j d, k, q, y, exists-select (granted_to i c) l, count_empty (granted_to i c) l)

-- A closed campaign takes no grant.
enrolls-Closed :
    (now c : ℕ) (campaigns : List PremiumCampaign)
    → exists (stoppable c) campaigns ≡ false
    → exists (enrolls_as now c) campaigns ≡ false
unfolding exists
enrolls-Closed now c [] h = refl
enrolls-Closed now c (x ∷ campaigns) h = ground (arith, h, enrolls-Closed now c campaigns)

Grown-Closed :
    (now i c k : ℕ) (campaigns : List PremiumCampaign) (l m : List Promotion)
    → Grown now i c campaigns l m
    → exists (stoppable k) campaigns ≡ false
    → count (has_campaign k) m ≡ count (has_campaign k) l
unfolding count
Grown-Closed now i c k campaigns l _ Grown.no_grant closed = refl
Grown-Closed now i c k campaigns l _ (Grown.new_grant p x y a q) closed =
    elim (Bool-cases (c == k)) [
      | inr n ↦ ground (arith, q, n)
      | inl e ↦
          absurd (ground (arith, x, enrolls-Closed now c campaigns (rw (sym (same e)) at closed)))
    ]
  where
    same : (c == k) ≡ true → c ≡ k
    same e = ground (arith, e)

closed-update :
    (k : ℕ) (p : PremiumCampaign → Bool) (f : PremiumCampaign → PremiumCampaign)
    (campaigns : List PremiumCampaign)
    → ((x : PremiumCampaign) → p x ≡ true → stoppable k x ≡ false → stoppable k (f x) ≡ false)
    → exists (stoppable k) campaigns ≡ false
    → exists (stoppable k) (update p f campaigns) ≡ false
unfolding exists update
closed-update k p f [] h closed = refl
closed-update k p f (x ∷ campaigns) h closed =
    ground (arith, h x, closed, closed-update k p f campaigns h)

-- What a step keeps of the promotions and of a closed campaign.
abbrev pub GrantsKept : ℕ → Db → Db → Type 0
GrantsKept k d e =
    (count (has_campaign k) e.promotions ≡ count (has_campaign k) d.promotions) × Closed k e

step-OneGrant : (op : CampaignOp) (db : Db) → OneGrant db → OneGrant (run_campaign op db)
unfolding open_campaign_enrollment stop_campaign
step-OneGrant (CampaignOp.grant clock i c) db one j d =
    Grown-count clock.db_now i c db.campaigns db.promotions
      (after db (grant_campaign_premium clock i c db)).promotions (grant-Grown clock i c db).1 one j
      d
step-OneGrant (CampaignOp.opening clock c) db one j d = rw (opening-promotions clock c db) (one j d)
  where
    opening-promotions :
        (clock : Clock) (c : ℕ) (db : Db)
        → (after db (open_campaign_enrollment clock c db)).promotions ≡ db.promotions
    opening-promotions clock c db = ground arith
step-OneGrant (CampaignOp.stop c) db one j d = one j d

-- An opening changes drafts only, none of which a closed campaign has.
opened_kept :
    (clock : Clock) (c k : ℕ) (db : Db)
    → Closed k db
    → GrantsKept k db (after db (open_campaign_enrollment clock c db))
unfolding open_campaign_enrollment
opened_kept clock c k db closed = ground (
  arith,
  closed,
  closed-update k (openable clock.db_now c) enrolling_campaign db.campaigns (λ x p s. opens x p s)
      closed,
)
  where
    opens :
        (x : PremiumCampaign)
        → openable clock.db_now c x ≡ true
        → stoppable k x ≡ false
        → stoppable k (enrolling_campaign x) ≡ false
    opens x p s = ground (arith, p, s)

stopped_kept : (c k : ℕ) (db : Db) → Closed k db → GrantsKept k db (after db (stop_campaign c db))
unfolding stop_campaign
stopped_kept c k db closed =
    (refl, closed-update k (stoppable c) stopped_campaign db.campaigns (λ x p s. stops x) closed)
  where
    stops : (x : PremiumCampaign) → stoppable k (stopped_campaign x) ≡ false
    stops x = ground arith

step-GrantsKept :
    (op : CampaignOp) (k : ℕ) (db : Db) → Closed k db → GrantsKept k db (run_campaign op db)
step-GrantsKept (CampaignOp.grant clock i c) k db closed =
    let g = grant-Grown clock i c db in
    (
      Grown-Closed clock.db_now i c k db.campaigns db.promotions
          (after db (grant_campaign_premium clock i c db)).promotions g.1 closed,
      ap (exists (stoppable k)) g.0 ∙ closed,
    )
step-GrantsKept (CampaignOp.opening clock c) k db closed = opened_kept clock c k db closed
step-GrantsKept (CampaignOp.stop c) k db closed = stopped_kept c k db closed

-- Over any history of grants, openings and stops, by any clocks, no listing gets a second grant of a
-- campaign, if none had two. And of a campaign that is closed no grant is added and none is lost,
-- nor is it ever opened again.
pub run_campaigns-OneGrant :
    (ops : List CampaignOp) (k : ℕ) (db : Db)
    → OneGrant db
    → Closed k db
    → OneGrant (run_campaigns ops db) × GrantsKept k db (run_campaigns ops db)
run_campaigns-OneGrant [] k db one closed = (one, (refl, closed))
run_campaigns-OneGrant (op ∷ ops) k db one closed =
    let s = step-GrantsKept op k db closed in
    let rest = run_campaigns-OneGrant ops k (run_campaign op db) (step-OneGrant op db one) s.1 in
    (rest.0, (rest.1.0 ∙ s.0, rest.1.1))

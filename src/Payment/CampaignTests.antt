-- ===== src/Payment/CampaignTests.antt =====
-- A campaign with one listing, and a stopped one.
use avtosh.Common.{◌≡◌, refl, List, [], ◌∷◌, arith, count, exists, select, update, ◌==◌}
use avtosh.Db.{Db}
use avtosh.Db.Payments.{PremiumCampaign, CampaignStatus}
use avtosh.Samples.{no_rows, clock, late}
use avtosh.Payment.Campaigns.{grant_campaign_premium, open_campaign_enrollment, stop_campaign}
use avtosh.Payment.Grants.{
  CampaignOp, OneGrant, GrantsKept, Closed, run_campaigns, run_campaigns-OneGrant,
}

abbrev campaign : PremiumCampaign
campaign = record {
  id = 5;
  grant_days = 30;
  enrollment_starts_at = 10;
  enrollment_ends_at = 100;
  status = CampaignStatus.enrolling;
}

abbrev campaigns : Db
campaigns = record no_rows {
  campaigns = campaign ∷ record campaign { id = 6; status = CampaignStatus.stopped } ∷ [];
}

abbrev steps : List CampaignOp
steps =
    CampaignOp.grant clock 1 5
    ∷ CampaignOp.grant clock 1 5
    ∷ CampaignOp.stop 5
    ∷ CampaignOp.grant clock 2 5
    ∷ CampaignOp.opening late 6
    ∷ []

-- One grant goes through.
one_granted : count (λ p. p.listing_id == 1) (run_campaigns steps campaigns).promotions ≡ 1
unfolding grant_campaign_premium count open_campaign_enrollment select stop_campaign update exists
one_granted = refl

no_grants : OneGrant campaigns
unfolding count
no_grants j d = omega arith

six-Closed : Closed 6 campaigns
unfolding exists
six-Closed = refl

run_campaigns-OneGrant_example :
    OneGrant (run_campaigns steps campaigns)
    × GrantsKept 6 campaigns (run_campaigns steps campaigns)
run_campaigns-OneGrant_example = run_campaigns-OneGrant steps 6 campaigns no_grants six-Closed

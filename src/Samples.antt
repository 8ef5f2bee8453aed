-- ===== src/Samples.antt =====
-- Two listings of one seller, a database with them, and two clocks, for tests.
use avtosh.Common.{false, true, none, some, [], ◌∷◌}
use avtosh.Submission.Catalog.{Catalog}
use avtosh.Content.Selections.{SellerContentPatch, Texts}
use avtosh.Db.{Db, Clock}
use avtosh.Db.Listings.{Listing, ListingContent, ListingStatus}

abbrev pub car : ListingContent
car = record {
  category_code = 1;
  brand_id = some 4;
  model_id = some 5;
  model_variant_id = none;
  year = some 2015;
  price_minor = some 900000;
  mileage = some 120000;
  engine_cc = some 2000;
  fuel_type_id = none;
  transmission_id = none;
  body_type_id = none;
  drive_type_id = none;
  motorcycle_type_id = none;
  color_id = none;
  city_id = some 1;
  credit_available = false;
  barter_available = false;
  no_accident = some false;
  not_repainted = some true;
  description = none;
  contact_phone_e164 = some 9;
  seller_name = some 8;
}

-- Owner 7; expires at 1000.
abbrev pub shown : Listing
shown = record {
  id = 1;
  public_id = 1001;
  owner_id = 7;
  content = car;
  status = ListingStatus.active;
  revision = 3;
  current_expires_at = some 1000;
  seller_deactivated_at = none;
  seller_reactivation_requested_at = none;
  submitted_at = some 5;
  published_at = some 6;
  sold_at = none;
  deleted_at = none;
}

abbrev pub hidden : Listing
hidden = record shown { id = 2; seller_deactivated_at = some 40 }

abbrev pub no_rows : Db
no_rows = record {
  listings = [];
  listing_features = [];
  listing_images = [];
  revisions = [];
  edit_images = [];
  payments = [];
  attempts = [];
  periods = [];
  promotions = [];
  publications = [];
  audits = [];
  outbox = [];
  history = [];
  uploads = [];
  claims = [];
  adjustments = [];
  reviews = [];
  campaigns = [];
  settings = record {
    free_publication_limit = some 2;
    publication_fee_minor = some 200;
    image_min = some 3;
    renewal_fee_minor = some 200;
    renewal_duration_days = some 30;
    validity_days = some 30;
  };
  next_id = 100;
}

abbrev pub two : Db
two = record no_rows { listings = shown ∷ hidden ∷ []; listing_features = (1, 30) ∷ (2, 31) ∷ [] }

abbrev pub clock : Clock
clock = record { db_now = 50; js_now = 51 }

abbrev pub late : Clock
late = record { db_now = 1000; js_now = 1001 }

-- A catalog in which every row is active, and no model has variants.
abbrev pub everything : Catalog
everything = record {
  category = λ c. true;
  brand = λ b c. true;
  model = λ m b c. true;
  variant = λ v m. true;
  model_has_variants = λ m. false;
  city = λ c. true;
  option = λ v g c. true;
  feature = λ f c. true;
}

abbrev pub same_texts : Texts
same_texts = record { normalize_phone_e164 = λ p. some p; trimmed = λ t. some t }

abbrev pub no_change : SellerContentPatch
no_change = record {
  category = none;
  brand_id = none;
  model_id = none;
  model_variant_id = none;
  year = none;
  price_minor = none;
  mileage = none;
  engine_cc = none;
  fuel_type_id = none;
  transmission_id = none;
  body_type_id = none;
  drive_type_id = none;
  motorcycle_type_id = none;
  color_id = none;
  city_id = none;
  credit_available = none;
  barter_available = none;
  no_accident = none;
  not_repainted = none;
  description = none;
  contact_phone = none;
  seller_name = none;
  feature_ids = none;
}

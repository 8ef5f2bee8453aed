-- ===== src/Submission/Ops.antt =====
-- Histories of submissions: each a call of src/services/listing-submission.ts in a transaction of
-- its own, or a change of the administrator's settings.
use avtosh.Common.{ℕ, List, [], ◌∷◌}
use avtosh.Db.{Db, Clock, after}
use avtosh.Db.Settings.{Settings}
use avtosh.Submission.Catalog.{Catalog}
use avtosh.Submission.Submit.{submit_listing}
use avtosh.Submission.Resubmit.{resubmit_listing}

pub data Op : Type 0 where
  submit : (catalog : Catalog) → (user listing_id expected_revision : ℕ) → Op
  resubmit : (catalog : Catalog) → (user listing_id expected_revision : ℕ) → Op
  configure : Settings → Op

-- A call that throws leaves the database as it was.
abbrev pub run : Clock → Op → Db → Db
run clock (Op.submit c u i e) db = after db (submit_listing c clock u i e db)
run clock (Op.resubmit c u i e) db = after db (resubmit_listing c clock u i e db)
run clock (Op.configure s) db = record db { settings = s }

abbrev pub run_all : List (Clock × Op) → Db → Db
run_all [] db = db
run_all ((clock, op) ∷ ops) db = run_all ops (run clock op db)

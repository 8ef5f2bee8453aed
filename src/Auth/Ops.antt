-- ===== src/Auth/Ops.antt =====
-- Histories of sign-in: the transactions of the calls of src/services/auth.ts in any order. The
-- failure of a delivery is a step of its own, since other calls can come between.
use avtosh.Common.{ℕ, true, Option, List, [], ◌∷◌}
use avtosh.Db.{Clock}
use avtosh.Auth.Store.{AuthDb, mark_challenge_expired, revoke_session_by_token_hash}
use avtosh.Auth.Otp.{AuthConfig, External, request_otp, resend_otp, verify_otp}

pub data Op : Type 0 where
  request : (input : ℕ) → (ip_hash : Option ℕ) → (id code : ℕ) → Op
  resend : (id code : ℕ) → Op
  verify : (id otp : ℕ) → (presented : Option ℕ) → (token : ℕ) → Op
  delivery_failed : (id : ℕ) → Op
  logout : (token : ℕ) → Op

-- The provider accepts at once; that it failed comes later, if at all.
abbrev pub accepts : External → External
accepts ext = record ext { sends = λ phone code. true }

abbrev pub run : AuthConfig → External → Clock → Op → AuthDb → AuthDb
run cfg ext clock (Op.request input ip id code) db =
    (request_otp cfg (accepts ext) clock input ip id code db).1
run cfg ext clock (Op.resend id code) db = (resend_otp cfg (accepts ext) clock id code db).1
run cfg ext clock (Op.verify id otp presented token) db =
    (verify_otp cfg ext clock id otp presented token db).1
run cfg ext clock (Op.delivery_failed id) db = mark_challenge_expired id db
run cfg ext clock (Op.logout token) db = revoke_session_by_token_hash clock (ext.sha256 token) db

abbrev pub run_all : AuthConfig → External → List (Clock × Op) → AuthDb → AuthDb
run_all cfg ext [] db = db
run_all cfg ext ((clock, op) ∷ ops) db = run_all cfg ext ops (run cfg ext clock op db)

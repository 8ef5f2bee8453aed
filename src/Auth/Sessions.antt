-- ===== src/Auth/Sessions.antt =====
-- The session that a verification gives, and its end (verifyOtp and revokeSessionByToken of
-- src/services/auth.ts).
use avtosh.Common.{
  ℕ, ◌+◌, ◌*◌, ◌<◌, ◌≡◌, ◌≢◌, refl, Bool, true, none, some, Option, List, [], ◌∷◌,
  select-update_apart, Option-cases, inl, inr, arith, select, exists, update, ok, select_holds,
}
use avtosh.Db.{Clock}
use avtosh.Auth.Store.{
  AuthDb, OtpChallenge, UserRow, Session, challenge_of, user_of, user_of_phone, live, revocable,
  revoked, has_role, Role, find_active_session_with_user, revoke_session_by_token_hash,
}
use avtosh.Auth.Otp.{AuthConfig, External, VerifyResult, verify_otp, sign_in}
use avtosh.Auth.Guards.{get_current_auth}
use avtosh.Auth.Ops.{Op, run}

abbrev pub session_user : Option (Session × UserRow) → Option UserRow
session_user none = none
session_user (some (s, u)) = some u

-- `users.id` is the primary key.
abbrev pub UserKeys : AuthDb → Type 0
UserKeys db =
    (phone : ℕ) (u : UserRow)
    → select (user_of_phone phone) db.users ≡ some u
    → select (user_of u.id) db.users ≡ some u

-- The caller's former session ends.
abbrev ended : External → Clock → Option ℕ → AuthDb → AuthDb
ended ext clock none db = db
ended ext clock (some t) db = revoke_session_by_token_hash clock (ext.sha256 t) db

revoke-find :
    (now clock : Clock) (h k : ℕ) (db : AuthDb)
    → h ≢ k
    → find_active_session_with_user now k (revoke_session_by_token_hash clock h db)
      ≡ find_active_session_with_user now k db
unfolding find_active_session_with_user revoke_session_by_token_hash
revoke-find now clock h k db apart = ground (
  arith,
  select-update_apart (revocable h) (live now.db_now k) (revoked clock.db_now) db.sessions
      (λ x p. ground arith) (λ x p. ground arith),
)

live-revoked :
    (h at now : ℕ) (l : List Session)
    → select (live now h) (update (revocable h) (revoked at) l) ≡ none
unfolding select update
live-revoked h at now [] = refl
live-revoked h at now (s ∷ l) = ground (arith, live-revoked h at now l)

module _ (cfg : AuthConfig) (ext : External) (clock : Clock) where
  verify_otp-result :
      (i otp token : ℕ) (presented : Option ℕ) (db : AuthDb)
      → {r : VerifyResult} {db' : AuthDb} {c : OtpChallenge}
      → verify_otp cfg ext clock i otp presented token db ≡ (ok r, db')
      → select (challenge_of i) db.challenges ≡ some c
      → (r ≡ (sign_in cfg ext clock c token db).0)
        × (db' ≡ ended ext clock presented (sign_in cfg ext clock c token db).1)
  unfolding verify_otp
  verify_otp-result i otp token presented db h found = ground arith

  sign_in-session :
      (now : Clock)
      → now.db_now < clock.js_now + cfg.session_ttl_seconds * 1000
      → (c : OtpChallenge) (token : ℕ) (db : AuthDb) → UserKeys db
      → session_user (
          find_active_session_with_user now (ext.sha256 token) (sign_in cfg ext clock c token db).1)
        ≡ some (sign_in cfg ext clock c token db).0.user
  unfolding find_active_session_with_user sign_in select exists
  sign_in-session now valid c token db keys = grind (arith, keys c.phone_e164)

  sign_in-user :
      (c : OtpChallenge) (token : ℕ) (db : AuthDb)
      → ((sign_in cfg ext clock c token db).0.user.phone_e164 ≡ c.phone_e164)
        × ((sign_in cfg ext clock c token db).0.session_token ≡ token)
        × (exists
              (has_role (sign_in cfg ext clock c token db).0.user.id Role.user)
              (sign_in cfg ext clock c token db).1.user_roles
            ≡ true)
  unfolding sign_in exists
  sign_in-user c token db = elim (Option-cases (select (user_of_phone c.phone_e164) db.users)) [
    | inl e ↦ ground (arith, e)
    | inr (u, e) ↦ ground (arith, e, select_holds (user_of_phone c.phone_e164) db.users e)
  ]

  -- The session of a successful verification is usable: while its time is not over, the token that
  -- it returns finds a session of the user that it returns, in the database that it leaves. That
  -- user has the phone of the challenge and the role USER. The conditions are that user ids are
  -- keys, and that the token hashes otherwise than that of the session which the caller had.
  pub verify_otp_signs_in :
      (i otp token : ℕ) (presented : Option ℕ) (db : AuthDb)
      → UserKeys db
      → ((t : ℕ) → presented ≡ some t → ext.sha256 t ≢ ext.sha256 token)
      → (now : Clock) → now.db_now < clock.js_now + cfg.session_ttl_seconds * 1000
      → {r : VerifyResult} {db' : AuthDb} {c : OtpChallenge}
      → verify_otp cfg ext clock i otp presented token db ≡ (ok r, db')
      → select (challenge_of i) db.challenges ≡ some c
      → (session_user (find_active_session_with_user now (ext.sha256 token) db') ≡ some r.user)
        × (r.user.phone_e164 ≡ c.phone_e164)
        × (r.session_token ≡ token)
        × (exists (has_role r.user.id Role.user) db'.user_roles ≡ true)
  unfolding revoke_session_by_token_hash
  verify_otp_signs_in i otp token none db keys other now valid {r} {db'} {c} h found = ground (
    arith,
    verify_otp-result i otp token none db h found,
    sign_in-session now valid c token db keys,
    sign_in-user c token db,
  )
  verify_otp_signs_in i otp token (some t) db keys other now valid {r} {db'} {c} h found = ground (
    arith,
    verify_otp-result i otp token (some t) db h found,
    sign_in-session now valid c token db keys,
    sign_in-user c token db,
    revoke-find now clock (ext.sha256 t) (ext.sha256 token) (sign_in cfg ext clock c token db).1
        (other t refl),
  )

  -- A logout ends the session at once: whatever comes later in time, the token then identifies no
  -- one, and the look-up writes nothing.
  pub logout_ends :
      (token : ℕ) (read_only : Bool) (db : AuthDb) (later : Clock)
      → get_current_auth cfg ext later read_only
          (some token)
          (run cfg ext clock (Op.logout token) db)
        ≡ (none, run cfg ext clock (Op.logout token) db)
  unfolding get_current_auth revoke_session_by_token_hash
  logout_ends token read_only db later =
      ground (arith, live-revoked (ext.sha256 token) clock.db_now later.db_now db.sessions)

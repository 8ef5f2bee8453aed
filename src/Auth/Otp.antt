-- ===== src/Auth/Otp.antt =====
-- The requests of src/services/auth.ts. What it takes from elsewhere is a parameter: HMAC and
-- SHA-256 of node:crypto, the parser of libphonenumber, and whether the provider's `sendOtp`
-- returns. Fresh ids, codes and tokens are arguments.
use avtosh.Common.{
  ℕ, ◌+◌, ◌-◌, ◌*◌, ◌/◌, Bool, true, false, ◌&&◌, ◌||◌, not, Option, none, some, List, ltb, leb,
  ◌==◌, if◌then◌else◌, Result, ok, err,
}
use avtosh.Db.{Clock}
use avtosh.Db.Errors.{ApiErrorCode}
use avtosh.Auth.Store.{
  AuthDb, OtpChallenge, OtpStatus, UserRow, Role, expire_pending_challenges, new_challenge,
  insert_challenge, count_challenges_for_phone_since, count_challenges_for_ip_since,
  get_challenge_for_update, record_failed_attempt, mark_challenge_verified, mark_challenge_expired,
  rotate_challenge_otp, upsert_user_on_login, ensure_user_role, get_user_role_codes, insert_session,
  revoke_session_by_token_hash,
}

-- `authConfig`, in seconds as there, the pepper, and the gate of src/lib/config/launch-pilot.ts.
pub data PilotGate : Type 0 where
  inactive : PilotGate
  active : (ℕ → Bool) → PilotGate

pub record AuthConfig : Type 0 where
  pub otp_ttl_seconds : ℕ
  pub otp_resend_cooldown_seconds : ℕ
  pub otp_max_attempts : ℕ
  pub otp_max_resends : ℕ
  pub otp_phone_max_per_hour : ℕ
  pub otp_ip_max_per_hour : ℕ
  pub otp_min_interval_seconds : ℕ
  pub session_ttl_seconds : ℕ
  pub pepper : ℕ
  pub pilot : PilotGate

pub record External : Type 0 where
  pub hmac : ℕ → ℕ × ℕ → ℕ
  pub sha256 : ℕ → ℕ
  pub parse_phone : ℕ → Option ℕ
  pub sends : ℕ → ℕ → Bool

abbrev pub pilot_allows : PilotGate → ℕ → Bool
pilot_allows PilotGate.inactive phone = true
pilot_allows (PilotGate.active is_allowed) phone = is_allowed phone

abbrev pub hash_otp : External → ℕ → ℕ → ℕ → ℕ
hash_otp ext pepper challenge_id code = ext.hmac pepper (challenge_id, code)

abbrev pub verify_otp_hash : External → ℕ → ℕ → ℕ → ℕ → Bool
verify_otp_hash ext pepper challenge_id code stored =
    hash_otp ext pepper challenge_id code == stored

-- A call keeps what it has committed also where it throws in the end.
abbrev pub Call : Type 0 → Type 0
Call A = AuthDb → Result ApiErrorCode A × AuthDb

pub record OtpChallengeResult : Type 0 where
  pub challenge_id : ℕ
  pub expires_in_seconds : ℕ
  pub resend_after_seconds : ℕ

unfoldable pub deliver_otp : External → ℕ → ℕ → ℕ → Call (Unit {0})
deliver_otp ext challenge_id phone code db =
    if ext.sends phone code
    then (ok tt, db)
    else (err ApiErrorCode.internal_error, mark_challenge_expired challenge_id db)

ip_over_limit : AuthConfig → ℕ → Option ℕ → AuthDb → Bool
unfolding count_challenges_for_ip_since
ip_over_limit cfg since none db = false
ip_over_limit cfg since (some ip) db =
    leb cfg.otp_ip_max_per_hour (count_challenges_for_ip_since ip since db)

-- `enforceRequestLimits`: true where it throws OTP_RATE_LIMITED.
unfoldable pub over_request_limits : AuthConfig → Clock → ℕ → Option ℕ → AuthDb → Bool
unfolding count_challenges_for_phone_since ip_over_limit
over_request_limits cfg clock phone ip_hash db =
    (ltb 0 cfg.otp_min_interval_seconds
      && ltb 0 (
          count_challenges_for_phone_since phone
            (clock.js_now - cfg.otp_min_interval_seconds * 1000) db))
    || leb cfg.otp_phone_max_per_hour
        (count_challenges_for_phone_since phone (clock.js_now - 3600000) db)
    || ip_over_limit cfg (clock.js_now - 3600000) ip_hash db

abbrev create_challenge :
    AuthConfig → External → Clock → ℕ → Option ℕ → ℕ → ℕ → AuthDb → Option AuthDb
create_challenge cfg ext clock phone ip_hash id code db =
    insert_challenge
      (new_challenge clock id phone (hash_otp ext cfg.pepper id code)
        (clock.js_now + cfg.otp_ttl_seconds * 1000) cfg.otp_max_attempts ip_hash)
      (expire_pending_challenges phone db)

sent :
    AuthConfig
    → ℕ
    → ℕ
    → Result ApiErrorCode (Unit {0}) × AuthDb
    → Result ApiErrorCode OtpChallengeResult × AuthDb
sent cfg id expires_in (err e, db) = (err e, db)
sent cfg id expires_in (ok u, db) = (
  ok (record {
    challenge_id = id;
    expires_in_seconds = expires_in;
    resend_after_seconds = cfg.otp_resend_cooldown_seconds;
  }),
  db,
)

unfoldable pub request_otp :
    AuthConfig → External → Clock → ℕ → Option ℕ → ℕ → ℕ → Call OtpChallengeResult
unfolding over_request_limits deliver_otp sent
request_otp cfg ext clock input ip_hash id code db = elim (ext.parse_phone input) [
  | none ↦ (err ApiErrorCode.auth_invalid_phone, db)
  | some phone ↦
      if not (pilot_allows cfg.pilot phone)
      then (err ApiErrorCode.otp_rate_limited, db)
      else if over_request_limits cfg clock phone ip_hash db
      then (err ApiErrorCode.otp_rate_limited, db)
      else elim (create_challenge cfg ext clock phone ip_hash id code db) [
        | none ↦ (err ApiErrorCode.internal_error, db)
        | some db' ↦ sent cfg id cfg.otp_ttl_seconds (deliver_otp ext id phone code db')
      ]
]

-- The checks that a resend and a verification share, in their order.
abbrev pub unusable : Clock → OtpChallenge → Option ApiErrorCode
unusable clock c = elim c.status [
  | OtpStatus.verified ↦ some ApiErrorCode.otp_invalid
  | OtpStatus.locked ↦ some ApiErrorCode.otp_locked
  | OtpStatus.expired ↦ some ApiErrorCode.otp_expired
  | OtpStatus.pending ↦
      if leb c.expires_at clock.js_now then some ApiErrorCode.otp_expired else none
]

-- The transaction of a resend: a throw, or the phone to send to and the new database.
rotate :
    AuthConfig → External → Clock → ℕ → OtpChallenge → AuthDb → Result ApiErrorCode (ℕ × AuthDb)
rotate cfg ext clock code c db = elim (unusable clock c) [
  | some e ↦ err e
  | none ↦
      if ltb clock.js_now (c.last_sent_at + cfg.otp_resend_cooldown_seconds * 1000)
      then err ApiErrorCode.otp_resend_too_soon
      else if leb cfg.otp_max_resends c.resend_count
      then err ApiErrorCode.otp_rate_limited
      else if not (pilot_allows cfg.pilot c.phone_e164)
      then err ApiErrorCode.otp_rate_limited
      else ok (c.phone_e164, rotate_challenge_otp clock c.id (hash_otp ext cfg.pepper c.id code) db)
]

-- `Math.ceil(max(0, remaining) / 1000)`.
remaining_seconds : Clock → ℕ → AuthDb → ℕ
remaining_seconds clock id db = elim (get_challenge_for_update id db) [
  | none ↦ 0
  | some c ↦ (c.expires_at - clock.js_now + 999) / 1000
]

unfoldable pub resend_otp : AuthConfig → External → Clock → ℕ → ℕ → Call OtpChallengeResult
unfolding rotate deliver_otp sent remaining_seconds
resend_otp cfg ext clock id code db = elim (get_challenge_for_update id db) [
  | none ↦ (err ApiErrorCode.otp_invalid, db)
  | some c ↦ elim (rotate cfg ext clock code c db) [
    | err e ↦ (err e, db)
    | ok (phone, db') ↦
        sent cfg id (remaining_seconds clock id db') (deliver_otp ext id phone code db')
  ]
]

pub record VerifyResult : Type 0 where
  pub user : UserRow
  pub roles : List Role
  pub session_token : ℕ
  pub session_ttl_seconds : ℕ

-- The challenge is consumed, and the user of its phone gets a session.
unfoldable pub sign_in :
    AuthConfig → External → Clock → OtpChallenge → ℕ → AuthDb → VerifyResult × AuthDb
unfolding upsert_user_on_login ensure_user_role get_user_role_codes insert_session
sign_in cfg ext clock c token db =
    let found = upsert_user_on_login c.phone_e164 (mark_challenge_verified c.id db) in
    let with_role = ensure_user_role found.0.id Role.user found.1 in
    (
      record {
        user = found.0;
        roles = get_user_role_codes found.0.id with_role;
        session_token = token;
        session_ttl_seconds = cfg.session_ttl_seconds;
      },
      insert_session found.0.id (ext.sha256 token) (clock.js_now + cfg.session_ttl_seconds * 1000)
          with_role,
    )

-- A failure is returned and not thrown, so that a counted attempt is committed.
try_code : AuthConfig → External → Clock → ℕ → ℕ → OtpChallenge → Call VerifyResult
try_code cfg ext clock otp token c db = elim (unusable clock c) [
  | some e ↦ (err e, db)
  | none ↦
      if not (pilot_allows cfg.pilot c.phone_e164)
      then (err ApiErrorCode.otp_invalid, db)
      else if not (verify_otp_hash ext cfg.pepper c.id otp c.code_hash)
      then (
        err (
            if leb c.max_attempts (c.attempt_count + 1)
            then ApiErrorCode.otp_locked
            else ApiErrorCode.otp_invalid),
        record_failed_attempt c.id (c.attempt_count + 1) (leb c.max_attempts (c.attempt_count + 1))
            db,
      )
      else (ok (sign_in cfg ext clock c token db).0, (sign_in cfg ext clock c token db).1)
]

-- Session fixation: the session that the caller presented ends.
revoke_presented :
    External
    → Clock
    → Option ℕ
    → Result ApiErrorCode VerifyResult × AuthDb
    → Result ApiErrorCode VerifyResult × AuthDb
unfolding revoke_session_by_token_hash
revoke_presented ext clock none r = r
revoke_presented ext clock (some token) (err e, db) = (err e, db)
revoke_presented ext clock (some token) (ok r, db) =
    (ok r, revoke_session_by_token_hash clock (ext.sha256 token) db)

unfoldable pub verify_otp : AuthConfig → External → Clock → ℕ → ℕ → Option ℕ → ℕ → Call VerifyResult
unfolding try_code revoke_presented
verify_otp cfg ext clock id otp presented token db = elim (get_challenge_for_update id db) [
  | none ↦ (err ApiErrorCode.otp_invalid, db)
  | some c ↦ revoke_presented ext clock presented (try_code cfg ext clock otp token c db)
]

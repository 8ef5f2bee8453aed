-- ===== src/Auth/Steps.antt =====
-- The abstract machine of the challenges: which changes of the table there are, each with the
-- conditions under which it happens, and that the calls of src/services/auth.ts make no others.
use avtosh.Common.{
  ℕ, ◌+◌, ◌*◌, ◌≤◌, ◌<◌, ◌≡◌, true, false, some, Option, List, ◌∷◌, arith, leb, select, exists,
  update, refl, exists-update, select_holds, ap, ◌∙◌,
}
use avtosh.Db.{Clock}
use avtosh.Auth.Store.{
  AuthDb, OtpChallenge, OtpStatus, challenge_of, pending_of, with_status, failed, rotated,
  is_pending, new_challenge, revoke_session_by_token_hash,
}
use avtosh.Auth.Otp.{
  AuthConfig, External, request_otp, resend_otp, verify_otp, sign_in, verify_otp_hash, hash_otp,
  pilot_allows,
}
use avtosh.Auth.Ops.{Op, run, accepts}

-- A row that a code can still be checked against.
pub record Open (cfg : AuthConfig) (clock : Clock) (l : List OtpChallenge) (c : OtpChallenge)
    : Type 0 where
  pub found : select (challenge_of c.id) l ≡ some c
  pub open_now : is_pending c.status ≡ true
  pub unexpired : clock.js_now < c.expires_at
  pub allowed : pilot_allows cfg.pilot c.phone_e164 ≡ true

pub data Step (cfg : AuthConfig) (ext : External) (clock : Clock) (l : List OtpChallenge)
    : List OtpChallenge → Type 0 where
  same : Step cfg ext clock l l
  -- A request supersedes the pending challenge of its phone.
  create :
      (id phone code : ℕ) (ip : Option ℕ)
      → exists (challenge_of id) l ≡ false
      → Step cfg ext clock l (
          new_challenge clock id phone
            (hash_otp ext cfg.pepper id code)
            (clock.js_now + cfg.otp_ttl_seconds * 1000)
            cfg.otp_max_attempts
            ip
          ∷ update (pending_of phone) (with_status OtpStatus.expired) l)
  -- A wrong code counts.
  fail :
      (c : OtpChallenge) (otp : ℕ)
      → Open cfg clock l c
      → verify_otp_hash ext cfg.pepper c.id otp c.code_hash ≡ false
      → Step cfg ext clock l (
          update
            (challenge_of c.id)
            (failed (c.attempt_count + 1) (leb c.max_attempts (c.attempt_count + 1)))
            l)
  -- The right code consumes the challenge.
  consume :
      (c : OtpChallenge) (otp : ℕ)
      → Open cfg clock l c
      → verify_otp_hash ext cfg.pepper c.id otp c.code_hash ≡ true
      → Step cfg ext clock l (update (challenge_of c.id) (with_status OtpStatus.verified) l)
  -- A resend replaces the code, after the cooldown and within the limit.
  rotate :
      (c : OtpChallenge) (code : ℕ)
      → Open cfg clock l c
      → c.last_sent_at + cfg.otp_resend_cooldown_seconds * 1000 ≤ clock.js_now
      → c.resend_count < cfg.otp_max_resends
      → Step cfg ext clock l
          (update (challenge_of c.id) (rotated clock.db_now (hash_otp ext cfg.pepper c.id code)) l)
  -- A failed delivery closes the challenge.
  expire :
      (i : ℕ) → Step cfg ext clock l (update (challenge_of i) (with_status OtpStatus.expired) l)

pub self_found :
    (i : ℕ) (l : List OtpChallenge) (c : OtpChallenge)
    → select (challenge_of i) l ≡ some c
    → select (challenge_of c.id) l ≡ some c
self_found i l c h =
    let e : c.id ≡ i = ground (arith, select_holds (challenge_of i) l h) in
    ap (λ j. select (challenge_of j) l) e ∙ h

module _ (cfg : AuthConfig) (ext : External) (clock : Clock) (db : AuthDb) where
  is_open :
      (i : ℕ) (c : OtpChallenge)
      → select (challenge_of i) db.challenges ≡ some c
      → is_pending c.status ≡ true
      → clock.js_now < c.expires_at
      → pilot_allows cfg.pilot c.phone_e164 ≡ true
      → Open cfg clock db.challenges c
  is_open i c h p u a = record {
    found = self_found i db.challenges c h;
    open_now = p;
    unexpired = u;
    allowed = a;
  }

  stays : Step cfg ext clock db.challenges db.challenges
  stays = Step.same

  creates :
      (id phone code : ℕ) (ip : Option ℕ)
      → exists (challenge_of id) db.challenges ≡ false
      → Step cfg ext clock db.challenges (
          new_challenge clock id phone
            (hash_otp ext cfg.pepper id code)
            (clock.js_now + cfg.otp_ttl_seconds * 1000)
            cfg.otp_max_attempts
            ip
          ∷ update (pending_of phone) (with_status OtpStatus.expired) db.challenges)
  creates id phone code ip h = Step.create id phone code ip h

  fails :
      (c : OtpChallenge) (otp : ℕ)
      → Open cfg clock db.challenges c
      → verify_otp_hash ext cfg.pepper c.id otp c.code_hash ≡ false
      → Step cfg ext clock db.challenges (
          update
            (challenge_of c.id)
            (failed (c.attempt_count + 1) (leb c.max_attempts (c.attempt_count + 1)))
            db.challenges)
  fails c otp o w = Step.fail c otp o w

  consumes :
      (c : OtpChallenge) (otp : ℕ)
      → Open cfg clock db.challenges c
      → verify_otp_hash ext cfg.pepper c.id otp c.code_hash ≡ true
      → Step cfg ext clock db.challenges
          (update (challenge_of c.id) (with_status OtpStatus.verified) db.challenges)
  consumes c otp o w = Step.consume c otp o w

  rotates :
      (c : OtpChallenge) (code : ℕ)
      → Open cfg clock db.challenges c
      → c.last_sent_at + cfg.otp_resend_cooldown_seconds * 1000 ≤ clock.js_now
      → c.resend_count < cfg.otp_max_resends
      → Step cfg ext clock db.challenges (
          update
            (challenge_of c.id)
            (rotated clock.db_now (hash_otp ext cfg.pepper c.id code))
            db.challenges)
  rotates c code o w m = Step.rotate c code o w m

  request-Step :
      (input : ℕ) (ip : Option ℕ) (id code : ℕ)
      → Step cfg ext clock db.challenges
          (request_otp cfg (accepts ext) clock input ip id code db).1.challenges
  unfolding request_otp
  request-Step input ip id code = grind (
    arith,
    stays,
    λ (phone : ℕ).
        exists-update (pending_of phone) (challenge_of id) (with_status OtpStatus.expired)
          db.challenges (λ x. refl),
    λ (phone : ℕ). creates id phone code ip,
  )

  resend-Step :
      (i code : ℕ)
      → Step cfg ext clock db.challenges (resend_otp cfg (accepts ext) clock i code db).1.challenges
  unfolding resend_otp
  resend-Step i code = grind (
    arith,
    stays,
    λ (c : OtpChallenge) (h : select (challenge_of i) db.challenges ≡ some c)
          (p : is_pending c.status ≡ true) (u : clock.js_now < c.expires_at)
          (a : pilot_allows cfg.pilot c.phone_e164 ≡ true).
        rotates c code (is_open i c h p u a),
  )

  verify-Step :
      (i otp : ℕ) (presented : Option ℕ) (token : ℕ)
      → Step cfg ext clock db.challenges
          (verify_otp cfg ext clock i otp presented token db).1.challenges
  unfolding verify_otp sign_in
  verify-Step i otp presented token = grind (
    arith,
    stays,
    λ (c : OtpChallenge) (h : select (challenge_of i) db.challenges ≡ some c)
          (p : is_pending c.status ≡ true) (u : clock.js_now < c.expires_at)
          (a : pilot_allows cfg.pilot c.phone_e164 ≡ true).
        fails c otp (is_open i c h p u a),
    λ (c : OtpChallenge) (h : select (challenge_of i) db.challenges ≡ some c)
          (p : is_pending c.status ≡ true) (u : clock.js_now < c.expires_at)
          (a : pilot_allows cfg.pilot c.phone_e164 ≡ true).
        consumes c otp (is_open i c h p u a),
  )

  logout-Step :
      (token : ℕ)
      → Step cfg ext clock db.challenges (run cfg ext clock (Op.logout token) db).challenges
  unfolding revoke_session_by_token_hash
  logout-Step token = Step.same

  -- Every step of sign-in is a step of the abstract machine of challenges: a challenge is created
  -- with a fresh id while the pending one of its phone closes, a wrong code counts, the right code
  -- consumes, a resend after the cooldown and within the limit replaces the code, a failed
  -- delivery closes, and nothing else happens to the table. Codes are checked and replaced only
  -- where the challenge is PENDING, unexpired and of a phone that the pilot allows.
  pub run-Step : (op : Op) → Step cfg ext clock db.challenges (run cfg ext clock op db).challenges
  run-Step (Op.request input ip id code) = request-Step input ip id code
  run-Step (Op.resend i code) = resend-Step i code
  run-Step (Op.verify i otp presented token) = verify-Step i otp presented token
  run-Step (Op.delivery_failed i) = Step.expire i
  run-Step (Op.logout token) = logout-Step token

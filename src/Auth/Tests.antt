-- ===== src/Auth/Tests.antt =====
-- A sign-in with a stand-in for the hashes, and the theorems at it.
use avtosh.Common.{
  ◌+◌, ◌*◌, ◌≤◌, ◌≡◌, ◌≢◌, refl, true, none, some, [], ◌∷◌, arith, select, exists, count, update,
  select_all, ok, err,
}
use avtosh.Db.Errors.{ApiErrorCode}
use avtosh.Samples.{clock, late}
use avtosh.Auth.Store.{
  AuthDb, OtpChallenge, UserStatus, Role, challenge_of, new_challenge, new_user, has_role,
  find_active_session_with_user,
}
use avtosh.Auth.Otp.{
  AuthConfig, External, PilotGate, OtpChallengeResult, VerifyResult, request_otp, verify_otp,
  sign_in, hash_otp,
}
use avtosh.Auth.Guards.{AuthContext, require_super_admin}
use avtosh.Auth.Ops.{Op, run, run_all}
use avtosh.Auth.Steps.{Step, run-Step}
use avtosh.Auth.Challenges.{Challenges, run_all-Challenges}
use avtosh.Auth.Limits.{wrong_guesses, wrong_guesses_bounded}
use avtosh.Auth.OneUse.{verify_otp_once}
use avtosh.Auth.Sessions.{UserKeys, session_user, verify_otp_signs_in}

abbrev cfg : AuthConfig
cfg = record {
  otp_ttl_seconds = 300;
  otp_resend_cooldown_seconds = 0;
  otp_max_attempts = 2;
  otp_max_resends = 3;
  otp_phone_max_per_hour = 5;
  otp_ip_max_per_hour = 10;
  otp_min_interval_seconds = 0;
  session_ttl_seconds = 1000;
  pepper = 9;
  pilot = PilotGate.active (λ p. true);
}

abbrev ext : External
ext = record {
  hmac = λ k m. k + m.0 + m.1;
  sha256 = λ t. t;
  parse_phone = λ s. some s;
  sends = λ p c. true;
}

abbrev empty : AuthDb
empty = record { challenges = []; users = []; user_roles = []; sessions = []; next_id = 1 }

empty-Challenges : Challenges cfg []
unfolding count
empty-Challenges = record {
  unique = λ i. omega arith;
  bounded = tt;
  one_pending = λ p. omega arith;
}

-- Phone 55 asks for challenge 3, whose code is 1234.
abbrev asked : AuthDb
asked = (request_otp cfg ext clock 55 none 3 1234 empty).1

abbrev granted : OtpChallengeResult
granted = record { challenge_id = 3; expires_in_seconds = 300; resend_after_seconds = 0 }

asks : request_otp cfg ext clock 55 none 3 1234 empty ≡ (ok granted, asked)
unfolding request_otp count exists update
asks = refl

abbrev signed : AuthDb
signed = (verify_otp cfg ext late 3 1234 none 77 asked).1

abbrev entry : VerifyResult
entry = record {
  user = new_user 1 55;
  roles = Role.user ∷ [];
  session_token = 77;
  session_ttl_seconds = 1000;
}

signs_in : verify_otp cfg ext late 3 1234 none 77 asked ≡ (ok entry, signed)
unfolding verify_otp request_otp count exists update select sign_in select_all
signs_in = refl

-- Two wrong codes lock the challenge.
abbrev wrong : Op
wrong = Op.verify 3 1 none 77

abbrev tried : AuthDb
tried = run cfg ext clock wrong asked

locks :
    verify_otp cfg ext late 3 1 none 77 tried
    ≡ (err ApiErrorCode.otp_locked, run cfg ext late wrong tried)
unfolding verify_otp request_otp count exists update select
locks = refl

wrong_first : (verify_otp cfg ext clock 3 1 none 77 asked).0 ≡ err ApiErrorCode.otp_invalid
unfolding verify_otp request_otp count exists update select
wrong_first = refl

tried-Challenges : Challenges cfg tried.challenges
tried-Challenges =
    run_all-Challenges cfg (omega arith) ext
      ((clock, Op.request 55 none 3 1234) ∷ (clock, wrong) ∷ []) empty empty-Challenges

run-Step_example : Step cfg ext clock asked.challenges (run cfg ext clock wrong asked).challenges
run-Step_example = run-Step cfg ext clock asked wrong

-- All three wrong codes are presented, and two are compared.
three_wrong :
    wrong_guesses cfg ext 3
      ((clock, Op.request 55 none 3 1234) ∷ (clock, wrong) ∷ (clock, wrong) ∷ (late, wrong) ∷ [])
      empty
    ≡ 2
unfolding verify_otp request_otp count exists update select
three_wrong = refl

wrong_guesses_bounded_example :
    wrong_guesses cfg ext 3
      ((clock, Op.request 55 none 3 1234) ∷ (clock, wrong) ∷ (clock, wrong) ∷ (late, wrong) ∷ [])
      empty
    ≤ 2
wrong_guesses_bounded_example =
    wrong_guesses_bounded cfg (omega arith) ext 3
      ((clock, Op.request 55 none 3 1234) ∷ (clock, wrong) ∷ (clock, wrong) ∷ (late, wrong) ∷ [])
      empty empty-Challenges

verify_otp_once_example :
    (verify_otp cfg ext late 3 1234 none 78
      (run_all cfg ext ((late, Op.resend 3 1234) ∷ []) signed)).0
    ≢ ok entry
verify_otp_once_example =
    verify_otp_once cfg ext late late 3 1234 1234 none none 77 78 ((late, Op.resend 3 1234) ∷ [])
      asked signs_in

asked-UserKeys : UserKeys asked
unfolding request_otp count exists update select
asked-UserKeys phone u h = ground arith

abbrev opened : OtpChallenge
opened =
    new_challenge clock 3 55 (hash_otp ext cfg.pepper 3 1234) (clock.js_now + 300 * 1000) 2 none

found3 : select (challenge_of 3) asked.challenges ≡ some opened
unfolding request_otp count exists update select
found3 = refl

verify_otp_signs_in_example :
    (session_user (find_active_session_with_user late 77 signed) ≡ some (new_user 1 55))
    × (entry.user.phone_e164 ≡ 55)
    × (entry.session_token ≡ 77)
    × (exists (has_role 1 Role.user) signed.user_roles ≡ true)
verify_otp_signs_in_example =
    verify_otp_signs_in cfg ext late 3 1234 77 none asked asked-UserKeys (λ t e. ground arith) late
      (omega arith) signs_in found3

abbrev boss : AuthContext
boss = record { session_id = 2; user = new_user 1 55; roles = Role.user ∷ Role.super_admin ∷ [] }

boss_is_admin : require_super_admin (some boss) ≡ ok boss
unfolding require_super_admin exists
boss_is_admin = refl

blocked_boss :
    require_super_admin
      (some (record boss { user = record boss.user { status = UserStatus.blocked } }))
    ≡ err ApiErrorCode.user_blocked
unfolding require_super_admin
blocked_boss = refl

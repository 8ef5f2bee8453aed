-- ===== src/Auth/Limits.antt =====
-- How often a code can be guessed, and how often one can be asked for.
use avtosh.Common.{
  ℕ, ◌==◌, ◌+◌, ◌-◌, ◌*◌, ◌≤◌, ◌≡◌, refl, Bool, true, false, not, ◌&&◌, none, some, Option, List,
  [], ◌∷◌, arith, if◌then◌else◌, is_none, leb, select, count, update, ok, ap, sym, Option-cases,
  inl, inr, ◌∙◌, touch_option, select_holds, select-update, exists-select, select-All, count-update,
}
use avtosh.Db.{Clock}
use avtosh.Auth.Store.{
  AuthDb, OtpChallenge, OtpStatus, challenge_of, pending_of, phone_since, with_status, failed,
  rotated, get_challenge_for_update, count_challenges_for_phone_since, new_challenge,
}
use avtosh.Auth.Otp.{
  AuthConfig, External, OtpChallengeResult, request_otp, verify_otp, sign_in, verify_otp_hash,
  pilot_allows, hash_otp, unusable,
}
use avtosh.Auth.Ops.{Op, run, run_all}
use avtosh.Auth.Steps.{Step, run-Step}
use avtosh.Auth.Challenges.{Bounded, Challenges, run_all-Challenges, count-closed}

abbrev pub checks_wrong : AuthConfig → External → Clock → ℕ → Option OtpChallenge → Bool
checks_wrong cfg ext clock otp none = false
checks_wrong cfg ext clock otp (some c) =
    is_none (unusable clock c)
    && pilot_allows cfg.pilot c.phone_e164
    && not (verify_otp_hash ext cfg.pepper c.id otp c.code_hash)

-- 1 if the step compares a wrong code with challenge `i`.
abbrev pub wrong_guess : AuthConfig → External → Clock → ℕ → Op → AuthDb → ℕ
wrong_guess cfg ext clock i (Op.verify id otp presented token) db =
    if (id == i) && checks_wrong cfg ext clock otp (get_challenge_for_update i db) then 1 else 0
wrong_guess cfg ext clock i _ db = 0

-- The wrong codes that a history compares with challenge `i`.
abbrev pub wrong_guesses : AuthConfig → External → ℕ → List (Clock × Op) → AuthDb → ℕ
wrong_guesses cfg ext i [] db = 0
wrong_guesses cfg ext i ((clock, op) ∷ ops) db =
    wrong_guess cfg ext clock i op db + wrong_guesses cfg ext i ops (run cfg ext clock op db)

abbrev attempts_of : Option OtpChallenge → ℕ
attempts_of none = 0
attempts_of (some c) = c.attempt_count

abbrev attempts : ℕ → AuthDb → ℕ
attempts i db = attempts_of (select (challenge_of i) db.challenges)

found_at :
    (i : ℕ) (l : List OtpChallenge) (c : OtpChallenge)
    → select (challenge_of c.id) l ≡ some c
    → c.id ≡ i
    → select (challenge_of i) l ≡ some c
found_at i l c h e = ap (λ j. select (challenge_of j) l) (sym e) ∙ h

same_select :
    (i j : ℕ) (l : List OtpChallenge)
    → i ≡ j
    → select (challenge_of i) l ≡ select (challenge_of j) l
same_select i j l e = ap (λ k. select (challenge_of k) l) e

failed-attempts :
    (i : ℕ) (l : List OtpChallenge) (c : OtpChallenge)
    → select (challenge_of c.id) l ≡ some c
    → (lock : Bool)
    → attempts_of (select (challenge_of i) l)
      ≤ attempts_of (
          select
            (challenge_of i)
            (update (challenge_of c.id) (failed (c.attempt_count + 1) lock) l))
failed-attempts i l c h lock = elim (Option-cases (select (challenge_of i) l)) [
  | inl e ↦ ground (arith, e, commuted)
  | inr (x, e) ↦ ground (arith, e, commuted, select_holds (challenge_of i) l e, found_at i l c h)
]
  where
    commuted :
        select (challenge_of i) (update (challenge_of c.id) (failed (c.attempt_count + 1) lock) l)
        ≡ touch_option
            (challenge_of c.id)
            (failed (c.attempt_count + 1) lock)
            (select (challenge_of i) l)
    commuted =
        select-update (challenge_of c.id) (challenge_of i) (failed (c.attempt_count + 1) lock) l
          (λ x. refl)

Step-attempts :
    {cfg : AuthConfig} {ext : External} {clock : Clock} {l l' : List OtpChallenge} (i : ℕ)
    → Step cfg ext clock l l'
    → attempts_of (select (challenge_of i) l) ≤ attempts_of (select (challenge_of i) l')
unfolding select
Step-attempts i Step.same = omega arith
Step-attempts {l} i (Step.create id phone code ip fresh) = ground (
  arith,
  exists-select (challenge_of i) l,
  select-update (pending_of phone) (challenge_of i) (with_status OtpStatus.expired) l (λ x. refl),
)
Step-attempts {l} i (Step.fail c otp o w) =
    failed-attempts i l c o.found (leb c.max_attempts (c.attempt_count + 1))
Step-attempts {l} i (Step.consume c otp o w) = ground (
  arith,
  select-update (challenge_of c.id) (challenge_of i) (with_status OtpStatus.verified) l (λ x. refl),
)
Step-attempts {cfg} {ext} {clock} {l} i (Step.rotate c code o w m) = ground (
  arith,
  select-update (challenge_of c.id) (challenge_of i)
      (rotated clock.db_now (hash_otp ext cfg.pepper c.id code)) l (λ x. refl),
)
Step-attempts {l} i (Step.expire j) = ground (
  arith,
  select-update (challenge_of j) (challenge_of i) (with_status OtpStatus.expired) l (λ x. refl),
)

module _ (cfg : AuthConfig) (ext : External) (clock : Clock) (i : ℕ) (db : AuthDb) where
  verify-counts :
      (id otp : ℕ) (presented : Option ℕ) (token : ℕ)
      → wrong_guess cfg ext clock i (Op.verify id otp presented token) db + attempts i db
        ≤ attempts i (verify_otp cfg ext clock id otp presented token db).1
  unfolding verify_otp sign_in
  verify-counts id otp presented token = grind (
    arith,
    Step-attempts i (run-Step cfg ext clock db (Op.verify id otp presented token)),
    same_select id i db.challenges,
    λ (c : OtpChallenge). select_holds (challenge_of id) db.challenges {x = c},
    λ (c : OtpChallenge) (n : ℕ) (b : Bool).
        select-update (challenge_of c.id) (challenge_of i) (failed n b) db.challenges (λ x. refl),
  )

  counts :
      (op : Op)
      → wrong_guess cfg ext clock i op db + attempts i db ≤ attempts i (run cfg ext clock op db)
  counts (Op.verify id otp presented token) = verify-counts id otp presented token
  counts (Op.request input ip id code) =
      omega (arith, Step-attempts i (run-Step cfg ext clock db (Op.request input ip id code)))
  counts (Op.resend id code) =
      omega (arith, Step-attempts i (run-Step cfg ext clock db (Op.resend id code)))
  counts (Op.delivery_failed id) =
      omega (arith, Step-attempts i (run-Step cfg ext clock db (Op.delivery_failed id)))
  counts (Op.logout token) =
      omega (arith, Step-attempts i (run-Step cfg ext clock db (Op.logout token)))

module _ (cfg : AuthConfig) (positive : 1 ≤ cfg.otp_max_attempts) (ext : External) (i : ℕ) where
  attempts_bounded :
      (db : AuthDb) → Challenges cfg db.challenges → attempts i db ≤ cfg.otp_max_attempts
  attempts_bounded db inv = elim (Option-cases (select (challenge_of i) db.challenges)) [
    | inl e ↦ ground (arith, e)
    | inr (c, e) ↦
        let b = select-All (Bounded cfg) (challenge_of i) db.challenges inv.bounded e in
        ground (arith, e, b.limit, b.attempts)
  ]

  guesses_counted :
      (ops : List (Clock × Op)) (db : AuthDb)
      → wrong_guesses cfg ext i ops db + attempts i db ≤ attempts i (run_all cfg ext ops db)
  guesses_counted [] db = omega arith
  guesses_counted ((clock, op) ∷ ops) db =
      omega (arith, counts cfg ext clock i db op, guesses_counted ops (run cfg ext clock op db))

  -- Of all the codes that are presented for a challenge, over any history of sign-in and however
  -- often its code is resent, no more wrong ones are compared than the configured number of
  -- attempts, where that is positive, and the history starts from a table that meets the invariant.
  pub wrong_guesses_bounded :
      (ops : List (Clock × Op)) (db : AuthDb)
      → Challenges cfg db.challenges
      → wrong_guesses cfg ext i ops db ≤ cfg.otp_max_attempts
  wrong_guesses_bounded ops db inv = omega (
    arith,
    guesses_counted ops db,
    attempts_bounded (run_all cfg ext ops db) (run_all-Challenges cfg positive ext ops db inv),
  )

-- A request that is granted was within the limits: with its own challenge the phone has no more
-- of the last hour than allowed. The phone is one that the pilot allows, and its pending challenge
-- is the new one alone, in which the code is stored as its hash.
pub request_otp_grants :
    (cfg : AuthConfig) (ext : External) (clock : Clock) (input : ℕ) (ip : Option ℕ) (id code : ℕ)
    → (db : AuthDb) → {r : OtpChallengeResult} {db' : AuthDb} {phone : ℕ}
    → request_otp cfg ext clock input ip id code db ≡ (ok r, db')
    → ext.parse_phone input ≡ some phone
    → (count_challenges_for_phone_since phone (clock.js_now - 3600000) db'
        ≤ cfg.otp_phone_max_per_hour)
      × (pilot_allows cfg.pilot phone ≡ true)
      × (count (pending_of phone) db'.challenges ≡ 1)
      × (select (challenge_of id) db'.challenges
          ≡ some (
              new_challenge clock id phone
                (hash_otp ext cfg.pepper id code)
                (clock.js_now + cfg.otp_ttl_seconds * 1000)
                cfg.otp_max_attempts
                ip))
unfolding request_otp count_challenges_for_phone_since count select
request_otp_grants cfg ext clock input ip id code db {phone = phone} h parsed = ground (
  arith,
  count-closed phone db.challenges,
  count-update (pending_of phone) (phone_since phone (clock.js_now - 3600000))
      (with_status OtpStatus.expired) db.challenges (λ x. refl),
)

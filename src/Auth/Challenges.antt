-- ===== src/Auth/Challenges.antt =====
-- What holds of the challenges between two steps of sign-in.
use avtosh.Common.{
  ℕ, ◌+◌, ◌≤◌, ◌<◌, ◌≡◌, refl, Bool, true, false, some, List, [], ◌∷◌, arith, select, exists, count,
  update, All, All-update, All-update_key, count-update, count-update-le, count-update_key,
  count_empty, exists-select, leb,
}
use avtosh.Db.{Clock}
use avtosh.Auth.Store.{
  AuthDb, OtpChallenge, OtpStatus, challenge_of, pending_of, with_status, failed, rotated,
  is_pending,
}
use avtosh.Auth.Otp.{AuthConfig, External}
use avtosh.Auth.Ops.{Op, run, run_all}
use avtosh.Auth.Steps.{Step, run-Step}

-- A challenge within the configuration's limits.
pub record Bounded (cfg : AuthConfig) (c : OtpChallenge) : Type 0 where
  pub limit : c.max_attempts ≡ cfg.otp_max_attempts
  pub attempts : c.attempt_count ≤ c.max_attempts
  pub open_left : is_pending c.status ≡ true → c.attempt_count < c.max_attempts
  pub resends : c.resend_count ≤ cfg.otp_max_resends

-- Ids are keys, each challenge is within the limits, and each phone has one PENDING challenge at
-- most.
pub record Challenges (cfg : AuthConfig) (l : List OtpChallenge) : Type 0 where
  pub unique : (i : ℕ) → count (challenge_of i) l ≤ 1
  pub bounded : All (Bounded cfg) l
  pub one_pending : (phone : ℕ) → count (pending_of phone) l ≤ 1

-- No challenge of the phone is left pending.
pub count-closed :
    (phone : ℕ) (l : List OtpChallenge)
    → count (pending_of phone) (update (pending_of phone) (with_status OtpStatus.expired) l) ≡ 0
unfolding count update
count-closed phone [] = refl
count-closed phone (c ∷ l) = ground (arith, count-closed phone l)

module _ (cfg : AuthConfig) (l : List OtpChallenge) (inv : Challenges cfg l) where
  closed-Challenges :
      (p : OtpChallenge → Bool) (s : OtpStatus)
      → is_pending s ≡ false
      → Challenges cfg (update p (with_status s) l)
  closed-Challenges p s closed = record {
    unique = λ i. rw (count-update p (challenge_of i) (with_status s) l (λ x. refl)) (inv.unique i);
    bounded = All-update (Bounded cfg) _ _ l (λ x h b. ground arith) inv.bounded;
    one_pending = λ phone. omega (
      arith,
      inv.one_pending phone,
      count-update-le p (pending_of phone) (with_status s) l (λ x h. ground arith),
    );
  }

  failed-Challenges :
      (i : ℕ) (c : OtpChallenge)
      → select (challenge_of i) l ≡ some c
      → is_pending c.status ≡ true
      → (lock : Bool) → (lock ≡ false → c.attempt_count + 1 < c.max_attempts)
      → Challenges cfg (update (challenge_of i) (failed (c.attempt_count + 1) lock) l)
  failed-Challenges i c h open_now lock more = record {
    unique = λ j.
        rw
          (count-update (challenge_of i) (challenge_of j) (failed (c.attempt_count + 1) lock) l
            (λ x. refl))
          (inv.unique j);
    bounded =
        All-update_key (Bounded cfg) (challenge_of i) _ l (inv.unique i) h (λ y e p b. ground arith)
          inv.bounded;
    one_pending = λ phone. omega (
      arith,
      inv.one_pending phone,
      count-update_key (challenge_of i) (pending_of phone) (failed (c.attempt_count + 1) lock) l
          (inv.unique i) h (ground arith),
    );
  }

  rotated-Challenges :
      (i now hash : ℕ) (c : OtpChallenge)
      → select (challenge_of i) l ≡ some c
      → c.resend_count < cfg.otp_max_resends
      → Challenges cfg (update (challenge_of i) (rotated now hash) l)
  rotated-Challenges i now hash c h more = record {
    unique = λ j.
        rw (count-update (challenge_of i) (challenge_of j) (rotated now hash) l (λ x. refl))
          (inv.unique j);
    bounded =
        All-update_key (Bounded cfg) (challenge_of i) _ l (inv.unique i) h (λ y e p b. ground arith)
          inv.bounded;
    one_pending = λ phone.
        rw (count-update (challenge_of i) (pending_of phone) (rotated now hash) l (λ x. refl))
          (inv.one_pending phone);
  }

  created-Challenges :
      (c : OtpChallenge)
      → exists (challenge_of c.id) l ≡ false
      → Bounded cfg c
      → Challenges cfg (c ∷ update (pending_of c.phone_e164) (with_status OtpStatus.expired) l)
  unfolding count
  created-Challenges c fresh ok_now = record {
    unique = λ i. ground (
      arith,
      expired_now.unique i,
      count_empty (challenge_of i) l,
      exists-select (challenge_of i) l,
      count-update (pending_of c.phone_e164) (challenge_of i) (with_status OtpStatus.expired) l
          (λ x. refl),
    );
    bounded = (ok_now, expired_now.bounded);
    one_pending =
        λ phone. ground (arith, expired_now.one_pending phone, count-closed c.phone_e164 l);
  }
    where
      expired_now :
          Challenges cfg (update (pending_of c.phone_e164) (with_status OtpStatus.expired) l)
      expired_now = closed-Challenges (pending_of c.phone_e164) OtpStatus.expired refl

module _ (cfg : AuthConfig) (positive : 1 ≤ cfg.otp_max_attempts) where
  Step-Challenges :
      {ext : External} {clock : Clock} {l l' : List OtpChallenge}
      → Challenges cfg l
      → Step cfg ext clock l l'
      → Challenges cfg l'
  Step-Challenges inv Step.same = inv
  Step-Challenges {l} inv (Step.create id phone code ip fresh) =
      created-Challenges cfg l inv _ fresh (record {
        limit = refl;
        attempts = omega arith;
        open_left = λ h. omega (arith, positive);
        resends = omega arith;
      })
  Step-Challenges {l} inv (Step.fail c otp o w) =
      failed-Challenges cfg l inv c.id c o.found o.open_now
        (leb c.max_attempts (c.attempt_count + 1)) (λ h. ground arith)
  Step-Challenges {l} inv (Step.consume c otp o w) =
      closed-Challenges cfg l inv (challenge_of c.id) OtpStatus.verified refl
  Step-Challenges {clock} {l} inv (Step.rotate c code o w m) =
      rotated-Challenges cfg l inv c.id clock.db_now _ c o.found m
  Step-Challenges {l} inv (Step.expire i) =
      closed-Challenges cfg l inv (challenge_of i) OtpStatus.expired refl

  -- From a table of challenges that meets the invariant, every history of sign-in, at any clocks,
  -- ends in one that does, where the limit of attempts is positive, as the configuration asks: no
  -- challenge has more failed attempts than allowed, or is PENDING with none left, or has more
  -- resends than allowed; and no phone has two PENDING challenges.
  pub run_all-Challenges :
      (ext : External) (ops : List (Clock × Op)) (db : AuthDb)
      → Challenges cfg db.challenges
      → Challenges cfg (run_all cfg ext ops db).challenges
  run_all-Challenges ext [] db inv = inv
  run_all-Challenges ext ((clock, op) ∷ ops) db inv =
      run_all-Challenges ext ops (run cfg ext clock op db)
        (Step-Challenges inv (run-Step cfg ext clock db op))

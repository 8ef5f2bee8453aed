-- ===== src/Auth/OneUse.antt =====
-- A challenge signs in once, and never after it was locked (verifyOtp of src/services/auth.ts).
use avtosh.Common.{
  ℕ, ◌≤◌, ◌≡◌, ◌≢◌, refl, Bool, true, false, ◌&&◌, some, Option, List, [], ◌∷◌, ap, sym, ◌∙◌, arith,
  ◌==◌, select, exists, count, update, ok, err, select_holds, exists_of_select, exists-select,
  exists-update, exists_none-update, exists-emptied, exists_key,
}
use avtosh.Db.{Clock}
use avtosh.Db.Errors.{ApiErrorCode}
use avtosh.Auth.Store.{
  AuthDb, OtpChallenge, OtpStatus, challenge_of, pending_of, with_status, failed, is_pending,
}
use avtosh.Auth.Otp.{AuthConfig, External, VerifyResult, verify_otp, sign_in}
use avtosh.Auth.Ops.{Op, run, run_all}
use avtosh.Auth.Steps.{Step, run-Step}
use avtosh.Auth.Challenges.{Challenges}

abbrev usable : ℕ → OtpChallenge → Bool
usable i c = (c.id == i) && is_pending c.status

-- The challenge is there and is not PENDING.
record Spent (i : ℕ) (l : List OtpChallenge) : Type 0 where
  there : exists (challenge_of i) l ≡ true
  closed : exists (usable i) l ≡ false

updated-Spent :
    (i : ℕ) (l : List OtpChallenge)
    → Spent i l
    → (p : OtpChallenge → Bool) (f : OtpChallenge → OtpChallenge)
    → ((x : OtpChallenge) → (f x).id ≡ x.id)
    → ((x : OtpChallenge) → p x ≡ true → usable i (f x) ≡ true → usable i x ≡ true)
    → Spent i (update p f l)
updated-Spent i l s p f same_id kept = record {
  there = exists-update p (challenge_of i) f l (λ x. rw (same_id x) refl) ∙ s.there;
  closed = exists_none-update p (usable i) f l kept s.closed;
}

Step-Spent :
    {cfg : AuthConfig} {ext : External} {clock : Clock} {l l' : List OtpChallenge} (i : ℕ)
    → Spent i l
    → Step cfg ext clock l l'
    → Spent i l'
unfolding exists
Step-Spent i s Step.same = s
Step-Spent {l} i s (Step.create id phone code ip fresh) =
    let kept =
      updated-Spent i l s (pending_of phone) (with_status OtpStatus.expired) (λ x. refl)
        (λ x p q. ground arith) in
    record {
      there = ground (arith, kept.there);
      closed = ground (arith, kept.closed, s.there, other);
    }
  where
    other : id ≡ i → exists (challenge_of i) l ≡ false
    other e = ap (λ k. exists (challenge_of k) l) (sym e) ∙ fresh
Step-Spent {l} i s (Step.fail c otp o w) =
    updated-Spent i l s _ _ (λ x. refl)
      (λ x p q.
        ground
          (arith, o.open_now, s.closed, exists_of_select (usable i) (challenge_of c.id) l o.found))
Step-Spent {l} i s (Step.consume c otp o w) =
    updated-Spent i l s _ _ (λ x. refl) (λ x p q. ground arith)
Step-Spent {l} i s (Step.rotate c code o w m) =
    updated-Spent i l s _ _ (λ x. refl) (λ x p q. ground arith)
Step-Spent {l} i s (Step.expire j) = updated-Spent i l s _ _ (λ x. refl) (λ x p q. ground arith)

-- An update of the found challenge that closes it.
closing-Spent :
    (i : ℕ) (l : List OtpChallenge) (c : OtpChallenge)
    → select (challenge_of i) l ≡ some c
    → (f : OtpChallenge → OtpChallenge) → ((x : OtpChallenge) → (f x).id ≡ x.id)
    → ((x : OtpChallenge) → is_pending (f x).status ≡ false)
    → Spent i (update (challenge_of c.id) f l)
closing-Spent i l c h f same_id closes = record {
  there =
      exists-update (challenge_of c.id) (challenge_of i) f l (λ x. rw (same_id x) refl)
      ∙ exists_of_select (challenge_of i) (challenge_of i) l h (select_holds (challenge_of i) l h);
  closed =
      exists-emptied (challenge_of c.id) (usable i) f l (λ x p. ground (arith, closes x))
        (λ x q. ground (arith, select_holds (challenge_of i) l h));
}

module _ (cfg : AuthConfig) (ext : External) where
  run_all-Spent :
      (i : ℕ) (ops : List (Clock × Op)) (db : AuthDb)
      → Spent i db.challenges
      → Spent i (run_all cfg ext ops db).challenges
  run_all-Spent i [] db s = s
  run_all-Spent i ((clock, op) ∷ ops) db s =
      run_all-Spent i ops (run cfg ext clock op db) (Step-Spent i s (run-Step cfg ext clock db op))

  verify_otp-Spent :
      (clock : Clock) (i otp : ℕ) (presented : Option ℕ) (token : ℕ) (db : AuthDb)
      → Spent i db.challenges
      → {r : VerifyResult} → (verify_otp cfg ext clock i otp presented token db).0 ≢ ok r
  unfolding verify_otp sign_in
  verify_otp-Spent clock i otp presented token db s {r} h = grind (
    arith,
    s.closed,
    λ (c : OtpChallenge). select_holds (challenge_of i) db.challenges {x = c},
    λ (c : OtpChallenge). exists_of_select (usable i) (challenge_of i) db.challenges {x = c},
  )

  consumed-Spent :
      (clock : Clock) (i otp : ℕ) (presented : Option ℕ) (token : ℕ) (db : AuthDb)
      → {r : VerifyResult} {db' : AuthDb}
      → verify_otp cfg ext clock i otp presented token db ≡ (ok r, db')
      → Spent i db'.challenges
  unfolding verify_otp sign_in
  consumed-Spent clock i otp presented token db {r} {db'} h = grind (
    arith,
    λ (c : OtpChallenge) (e : select (challenge_of i) db.challenges ≡ some c).
        (closing-Spent i db.challenges c e (with_status OtpStatus.verified) (λ x. refl)
          (λ x. refl)).there,
    λ (c : OtpChallenge) (e : select (challenge_of i) db.challenges ≡ some c).
        (closing-Spent i db.challenges c e (with_status OtpStatus.verified) (λ x. refl)
          (λ x. refl)).closed,
  )

  locked-Spent :
      (clock : Clock) (i otp : ℕ) (presented : Option ℕ) (token : ℕ) (db : AuthDb)
      → count (challenge_of i) db.challenges ≤ 1
      → {db' : AuthDb}
      → verify_otp cfg ext clock i otp presented token db ≡ (err ApiErrorCode.otp_locked, db')
      → Spent i db'.challenges
  unfolding verify_otp sign_in
  locked-Spent clock i otp presented token db u {db'} h = grind (
    arith,
    λ (c : OtpChallenge). select_holds (challenge_of i) db.challenges {x = c},
    exists-select (challenge_of i) db.challenges,
    λ (c : OtpChallenge) (e : select (challenge_of i) db.challenges ≡ some c)
          (n : c.status ≡ OtpStatus.locked).
        exists_key (challenge_of i) (usable i) db.challenges u e (ground (arith, n))
          (λ y q. ground arith),
    λ (c : OtpChallenge) (e : select (challenge_of i) db.challenges ≡ some c) (n : ℕ).
        (closing-Spent i db.challenges c e (failed n true) (λ x. refl) (λ x. refl)).there,
    λ (c : OtpChallenge) (e : select (challenge_of i) db.challenges ≡ some c) (n : ℕ).
        (closing-Spent i db.challenges c e (failed n true) (λ x. refl) (λ x. refl)).closed,
  )

  -- A challenge signs in at most once: after a verification of it that succeeded, and any further
  -- history of sign-in, no verification of the same challenge succeeds, whatever the code.
  pub verify_otp_once :
      (clock clock' : Clock) (i otp otp' : ℕ) (presented presented' : Option ℕ) (token token' : ℕ)
      → (ops : List (Clock × Op)) (db : AuthDb) → {r r' : VerifyResult} {db' : AuthDb}
      → verify_otp cfg ext clock i otp presented token db ≡ (ok r, db')
      → (verify_otp cfg ext clock' i otp' presented' token' (run_all cfg ext ops db')).0 ≢ ok r'
  verify_otp_once clock clock' i otp otp' presented presented' token token' ops db {db' = db'} h =
      verify_otp-Spent clock' i otp' presented' token' (run_all cfg ext ops db')
        (run_all-Spent i ops db' (consumed-Spent clock i otp presented token db h))

  -- A challenge that answered OTP_LOCKED never signs in again, whatever happens between and
  -- whatever the code, where the table meets the invariant.
  pub verify_otp_locked :
      (clock clock' : Clock) (i otp otp' : ℕ) (presented presented' : Option ℕ) (token token' : ℕ)
      → (ops : List (Clock × Op)) (db : AuthDb) → Challenges cfg db.challenges
      → {r' : VerifyResult} {db' : AuthDb}
      → verify_otp cfg ext clock i otp presented token db ≡ (err ApiErrorCode.otp_locked, db')
      → (verify_otp cfg ext clock' i otp' presented' token' (run_all cfg ext ops db')).0 ≢ ok r'
  verify_otp_locked clock clock' i otp otp' presented presented' token token' ops db inv {db' = db'}
        h =
      verify_otp-Spent clock' i otp' presented' token' (run_all cfg ext ops db')
        (run_all-Spent i ops db' (locked-Spent clock i otp presented token db (inv.unique i) h))

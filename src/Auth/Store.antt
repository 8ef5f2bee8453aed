-- ===== src/Auth/Store.antt =====
-- The rows and the statements of src/repositories/auth.ts. Every challenge has the one purpose
-- LOGIN, which is left out. The tables of sign-in are disjoint from those of `Db`.
use avtosh.Common.{
  ℕ, ◌+◌, Bool, true, false, ◌&&◌, Option, none, some, List, ◌∷◌, map, ltb, ◌==◌, if◌then◌else◌,
  is_none, select, select_all, exists, count, update,
}
use avtosh.Db.{Clock}

pub data OtpStatus : Type 0 where
  pending verified expired locked : OtpStatus

pub record OtpChallenge : Type 0 where
  pub id : ℕ
  pub phone_e164 : ℕ
  pub code_hash : ℕ
  pub status : OtpStatus
  pub expires_at : ℕ
  pub attempt_count : ℕ
  pub max_attempts : ℕ
  pub resend_count : ℕ
  pub last_sent_at : ℕ
  pub created_at : ℕ
  pub ip_hash : Option ℕ

pub data UserStatus : Type 0 where
  active blocked : UserStatus

pub record UserRow : Type 0 where
  pub id : ℕ
  pub phone_e164 : ℕ
  pub display_name : Option ℕ
  pub status : UserStatus

pub data Role : Type 0 where
  user moderator admin super_admin : Role

pub record Session : Type 0 where
  pub id : ℕ
  pub user_id : ℕ
  pub token_hash : ℕ
  pub expires_at : ℕ
  pub revoked_at : Option ℕ
  pub last_seen_at : Option ℕ

pub record AuthDb : Type 0 where
  pub challenges : List OtpChallenge
  pub users : List UserRow
  pub user_roles : List (ℕ × Role)
  pub sessions : List Session
  pub next_id : ℕ

abbrev pub is_pending : OtpStatus → Bool
is_pending OtpStatus.pending = true
is_pending _ = false

abbrev pub challenge_of : ℕ → OtpChallenge → Bool
challenge_of id c = c.id == id

abbrev pub pending_of : ℕ → OtpChallenge → Bool
pending_of phone c = (c.phone_e164 == phone) && is_pending c.status

abbrev pub with_status : OtpStatus → OtpChallenge → OtpChallenge
with_status s c = record c { status = s }

abbrev pub update_challenges :
    (OtpChallenge → Bool) → (OtpChallenge → OtpChallenge) → AuthDb → AuthDb
update_challenges p f db = record db { challenges = update p f db.challenges }

abbrev pub expire_pending_challenges : ℕ → AuthDb → AuthDb
expire_pending_challenges phone =
    update_challenges (pending_of phone) (with_status OtpStatus.expired)

-- `created_at` and `last_sent_at` default to `now()`.
abbrev pub new_challenge : Clock → ℕ → ℕ → ℕ → ℕ → ℕ → Option ℕ → OtpChallenge
new_challenge clock id phone code_hash expires_at max_attempts ip_hash = record {
  id = id;
  phone_e164 = phone;
  code_hash = code_hash;
  status = OtpStatus.pending;
  expires_at = expires_at;
  attempt_count = 0;
  max_attempts = max_attempts;
  resend_count = 0;
  last_sent_at = clock.db_now;
  created_at = clock.db_now;
  ip_hash = ip_hash;
}

-- The insert of an id that is there violates the primary key, and throws.
abbrev pub insert_challenge : OtpChallenge → AuthDb → Option AuthDb
insert_challenge c db =
    if exists (challenge_of c.id) db.challenges
    then none
    else some (record db { challenges = c ∷ db.challenges })

abbrev pub phone_since : ℕ → ℕ → OtpChallenge → Bool
phone_since phone since c = (c.phone_e164 == phone) && ltb since c.created_at

unfoldable pub count_challenges_for_phone_since : ℕ → ℕ → AuthDb → ℕ
count_challenges_for_phone_since phone since db = count (phone_since phone since) db.challenges

abbrev same_ip : ℕ → Option ℕ → Bool
same_ip ip none = false
same_ip ip (some h) = h == ip

abbrev pub ip_since : ℕ → ℕ → OtpChallenge → Bool
ip_since ip since c = same_ip ip c.ip_hash && ltb since c.created_at

unfoldable pub count_challenges_for_ip_since : ℕ → ℕ → AuthDb → ℕ
count_challenges_for_ip_since ip since db = count (ip_since ip since) db.challenges

abbrev pub get_challenge_for_update : ℕ → AuthDb → Option OtpChallenge
get_challenge_for_update id db = select (challenge_of id) db.challenges

abbrev pub failed : ℕ → Bool → OtpChallenge → OtpChallenge
failed attempts lock c = record c {
  attempt_count = attempts;
  status = if lock then OtpStatus.locked else OtpStatus.pending;
}

abbrev pub record_failed_attempt : ℕ → ℕ → Bool → AuthDb → AuthDb
record_failed_attempt id attempts lock = update_challenges (challenge_of id) (failed attempts lock)

abbrev pub mark_challenge_verified : ℕ → AuthDb → AuthDb
mark_challenge_verified id = update_challenges (challenge_of id) (with_status OtpStatus.verified)

abbrev pub mark_challenge_expired : ℕ → AuthDb → AuthDb
mark_challenge_expired id = update_challenges (challenge_of id) (with_status OtpStatus.expired)

abbrev pub rotated : ℕ → ℕ → OtpChallenge → OtpChallenge
rotated now code_hash c = record c {
  code_hash = code_hash;
  resend_count = c.resend_count + 1;
  last_sent_at = now;
}

abbrev pub rotate_challenge_otp : Clock → ℕ → ℕ → AuthDb → AuthDb
rotate_challenge_otp clock id code_hash =
    update_challenges (challenge_of id) (rotated clock.db_now code_hash)

abbrev pub user_of_phone : ℕ → UserRow → Bool
user_of_phone phone u = u.phone_e164 == phone

abbrev pub new_user : ℕ → ℕ → UserRow
new_user id phone = record {
  id = id;
  phone_e164 = phone;
  display_name = none;
  status = UserStatus.active;
}

-- On conflict of the phone the row that is there is returned (its login times are not modelled).
unfoldable pub upsert_user_on_login : ℕ → AuthDb → UserRow × AuthDb
upsert_user_on_login phone db = elim (select (user_of_phone phone) db.users) [
  | some u ↦ (u, db)
  | none ↦ (
    new_user db.next_id phone,
    record db { users = new_user db.next_id phone ∷ db.users; next_id = db.next_id + 1 },
  )
]

abbrev same_role : Role → Role → Bool
same_role Role.user Role.user = true
same_role Role.moderator Role.moderator = true
same_role Role.admin Role.admin = true
same_role Role.super_admin Role.super_admin = true
same_role _ _ = false

abbrev pub has_role : ℕ → Role → ℕ × Role → Bool
has_role user_id role (u, r) = (u == user_id) && same_role r role

unfoldable pub ensure_user_role : ℕ → Role → AuthDb → AuthDb
ensure_user_role user_id role db =
    if exists (has_role user_id role) db.user_roles
    then db
    else record db { user_roles = (user_id, role) ∷ db.user_roles }

abbrev role_of : ℕ → ℕ × Role → Bool
role_of user_id (u, r) = u == user_id

-- In the table's order; the source orders by the code.
unfoldable pub get_user_role_codes : ℕ → AuthDb → List Role
get_user_role_codes user_id db = map (λ p. p.1) (select_all (role_of user_id) db.user_roles)

unfoldable pub insert_session : ℕ → ℕ → ℕ → AuthDb → AuthDb
insert_session user_id token_hash expires_at db = record db {
  sessions =
      record {
        id = db.next_id;
        user_id = user_id;
        token_hash = token_hash;
        expires_at = expires_at;
        revoked_at = none;
        last_seen_at = none;
      }
      ∷ db.sessions;
  next_id = db.next_id + 1;
}

abbrev pub live : ℕ → ℕ → Session → Bool
live now token_hash s = (s.token_hash == token_hash) && is_none s.revoked_at && ltb now s.expires_at

abbrev pub user_of : ℕ → UserRow → Bool
user_of id u = u.id == id

-- The join is with one row: `users.id` is the key that `sessions.user_id` refers to.
unfoldable pub find_active_session_with_user : Clock → ℕ → AuthDb → Option (Session × UserRow)
find_active_session_with_user clock token_hash db =
    elim (select (live clock.db_now token_hash) db.sessions) [
      | none ↦ none
      | some s ↦ elim (select (user_of s.user_id) db.users) [ none ↦ none | some u ↦ some (s, u) ]
    ]

abbrev pub revocable : ℕ → Session → Bool
revocable token_hash s = (s.token_hash == token_hash) && is_none s.revoked_at

abbrev pub revoked : ℕ → Session → Session
revoked now s = record s { revoked_at = some now }

unfoldable pub revoke_session_by_token_hash : Clock → ℕ → AuthDb → AuthDb
revoke_session_by_token_hash clock token_hash db = record db {
  sessions = update (revocable token_hash) (revoked clock.db_now) db.sessions;
}

-- `last_seen_at < now() - interval '5 minutes'`.
abbrev stale : ℕ → Option ℕ → Bool
stale now none = true
stale now (some seen) = ltb (seen + 300000) now

abbrev pub untouched : ℕ → ℕ → Session → Bool
untouched now id s = (s.id == id) && stale now s.last_seen_at

abbrev pub seen_at : ℕ → Session → Session
seen_at now s = record s { last_seen_at = some now }

unfoldable pub touch_session_last_seen : Clock → ℕ → AuthDb → AuthDb
touch_session_last_seen clock id db = record db {
  sessions = update (untouched clock.db_now id) (seen_at clock.db_now) db.sessions;
}

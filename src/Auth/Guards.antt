-- ===== src/Auth/Guards.antt =====
-- The guards of the routes (src/auth/current-user.ts): who a request is, and what it may do.
use avtosh.Common.{
  ℕ, ◌≡◌, refl, Bool, true, false, not, Option, none, some, List, [], ◌∷◌, arith, if◌then◌else◌,
  exists, Result, ok, err,
}
use avtosh.Db.{Clock}
use avtosh.Db.Errors.{ApiErrorCode}
use avtosh.Auth.Store.{
  AuthDb, UserRow, UserStatus, Role, find_active_session_with_user, touch_session_last_seen,
  get_user_role_codes,
}
use avtosh.Auth.Otp.{AuthConfig, External, pilot_allows}

pub record AuthContext : Type 0 where
  pub session_id : ℕ
  pub user : UserRow
  pub roles : List Role

-- `token` is the cookie's, if the request has one.
unfoldable pub get_current_auth :
    AuthConfig → External → Clock → Bool → Option ℕ → AuthDb → Option AuthContext × AuthDb
unfolding find_active_session_with_user touch_session_last_seen get_user_role_codes
get_current_auth cfg ext clock true token db = (none, db)
get_current_auth cfg ext clock false none db = (none, db)
get_current_auth cfg ext clock false (some token) db =
    elim (find_active_session_with_user clock (ext.sha256 token) db) [
      | none ↦ (none, db)
      | some (s, u) ↦ if not (pilot_allows cfg.pilot u.phone_e164) then (none, db) else (
        some (record {
          session_id = s.id;
          user = u;
          roles = get_user_role_codes u.id (touch_session_last_seen clock s.id db);
        }),
        touch_session_last_seen clock s.id db,
      )
    ]

abbrev pub Guard : Type 0
Guard = Option AuthContext → Result ApiErrorCode AuthContext

abbrev pub require_auth : Guard
require_auth none = err ApiErrorCode.auth_required
require_auth (some auth) = ok auth

abbrev is_blocked : UserStatus → Bool
is_blocked UserStatus.blocked = true
is_blocked UserStatus.active = false

unfoldable pub require_active_seller : Guard
require_active_seller current = elim (require_auth current) [
  | err e ↦ err e
  | ok auth ↦ if is_blocked auth.user.status then err ApiErrorCode.user_blocked else ok auth
]

abbrev pub is_staff_role : Role → Bool
is_staff_role Role.user = false
is_staff_role _ = true

abbrev pub is_admin_role : Role → Bool
is_admin_role Role.admin = true
is_admin_role Role.super_admin = true
is_admin_role _ = false

abbrev pub is_super_admin_role : Role → Bool
is_super_admin_role Role.super_admin = true
is_super_admin_role _ = false

abbrev require_role :
    (Role → Bool) → Result ApiErrorCode AuthContext → Result ApiErrorCode AuthContext
require_role p (err e) = err e
require_role p (ok auth) =
    if not (exists p auth.roles) then err ApiErrorCode.staff_role_required else ok auth

unfoldable pub require_admin : Guard
unfolding require_active_seller
require_admin current = require_role is_admin_role (require_active_seller current)

unfoldable pub require_super_admin : Guard
unfolding require_admin
require_super_admin current = require_role is_super_admin_role (require_admin current)

unfoldable pub require_staff : Guard
unfolding require_active_seller
require_staff current = require_role is_staff_role (require_active_seller current)

-- Each admin role is a staff role.
admin_is_staff : (l : List Role) → exists is_admin_role l ≡ true → exists is_staff_role l ≡ true
unfolding exists
admin_is_staff [] h = ground arith
admin_is_staff (Role.user ∷ l) h = admin_is_staff l h
admin_is_staff (Role.moderator ∷ l) h = refl
admin_is_staff (Role.admin ∷ l) h = refl
admin_is_staff (Role.super_admin ∷ l) h = refl

-- The guards are nested: whom `requireSuperAdmin` lets through `requireAdmin` does, whom that lets
-- through `requireStaff` does, and whom that lets through `requireActiveSeller` does; each time
-- with the same context, that of the current session, whose user is not blocked.
pub guards_nested :
    (current : Option AuthContext) {a : AuthContext}
    → (require_super_admin current ≡ ok a → require_admin current ≡ ok a)
      × (require_admin current ≡ ok a → require_staff current ≡ ok a)
      × (require_staff current ≡ ok a → require_active_seller current ≡ ok a)
      × (require_active_seller current ≡ ok a
          → (current ≡ some a) × (a.user.status ≡ UserStatus.active))
unfolding require_super_admin require_staff
guards_nested none {a} =
    (λ h. ground arith, λ h. ground arith, λ h. ground arith, λ h. ground arith)
guards_nested (some auth) {a} = (
  λ h. ground arith,
  λ h. ground (arith, admin_is_staff auth.roles),
  λ h. ground arith,
  λ h. ground arith,
)

-- ===== src/Db/Settings.antt =====
-- The rows of `system_settings` that the services read, each as the integer that it holds, if it
-- does (src/repositories/listing-publications.ts: getSubmissionSettings;
-- src/repositories/renewals.ts: getRenewalSettings; src/repositories/moderation.ts:
-- getValidityDays).
use avtosh.Common.{ℕ, Option, none, some, ltb, if◌then◌else◌}

pub record Settings : Type 0 where
  pub free_publication_limit : Option ℕ
  pub publication_fee_minor : Option ℕ
  pub image_min : Option ℕ
  pub renewal_fee_minor : Option ℕ
  pub renewal_duration_days : Option ℕ
  pub validity_days : Option ℕ

-- `value < min ? null : value`.
abbrev pub at_least : ℕ → Option ℕ → Option ℕ
at_least least none = none
at_least least (some value) = if ltb value least then none else some value

pub record SubmissionSettings : Type 0 where
  pub free_limit : ℕ
  pub fee_minor : ℕ
  pub image_min : ℕ

submission_of : Option ℕ → Option ℕ → Option ℕ → Option SubmissionSettings
submission_of (some free_limit) (some fee_minor) (some image_min) =
    some (record { free_limit = free_limit; fee_minor = fee_minor; image_min = image_min })
submission_of _ _ _ = none

-- Missing or corrupt values fail closed.
unfoldable pub get_submission_settings : Settings → Option SubmissionSettings
unfolding submission_of
get_submission_settings s =
    submission_of (at_least 0 s.free_publication_limit) (at_least 0 s.publication_fee_minor)
      (at_least 1 s.image_min)

pub record RenewalSettings : Type 0 where
  pub fee_minor : ℕ
  pub duration_days : ℕ

renewal_of : Option ℕ → Option ℕ → Option RenewalSettings
renewal_of (some fee_minor) (some days) =
    some (record { fee_minor = fee_minor; duration_days = days })
renewal_of _ _ = none

unfoldable pub get_renewal_settings : Settings → Option RenewalSettings
unfolding renewal_of
get_renewal_settings s =
    renewal_of (at_least 1 s.renewal_fee_minor) (at_least 1 s.renewal_duration_days)

abbrev pub get_validity_days : Settings → Option ℕ
get_validity_days s = at_least 1 s.validity_days

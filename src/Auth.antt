-- ===== src/Auth.antt =====
-- Sign-in by a one-time code, sessions and the guards of the routes
-- (src/services/auth.ts and src/auth/current-user.ts over src/repositories/auth.ts).
pub mod Store
pub mod Otp
pub mod Guards
pub mod Ops
pub mod Steps
pub mod Challenges
pub mod Limits
pub mod OneUse
pub mod Sessions
mod Tests

-- ===== src/Hooks.antt =====
-- The client's hooks (frontend/src/hooks), apart from the geolocation, which the punch page has.
pub mod WebAuthn
pub mod MyProfile

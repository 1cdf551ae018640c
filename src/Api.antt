-- ===== src/Api.antt =====
-- The API gateway (api/src/pgs_api): logins, their throttle, and access tokens.
pub mod Throttle
pub mod Base64
pub mod Tokens
pub mod Account

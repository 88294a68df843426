-- ===== src/Security.antt =====
-- packages/security/src: the limits on requests.
pub mod RateLimit

-- ===== src/Http.antt =====
-- src/http: the HTTP client.
pub mod Retry

-- ===== src/Transport.antt =====
-- transport/: what stands between the API clients and the HTTP transport.
pub mod Retry
pub mod Limiter
pub mod Weights
pub mod Interval

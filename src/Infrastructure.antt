-- ===== src/Infrastructure.antt =====
-- Models app/infrastructure.
pub mod CircuitBreaker
pub mod RateLimit
pub mod Cache

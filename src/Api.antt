-- ===== src/Api.antt =====
-- The HTTP layer (src/api, and src/main.py with the life of a worker): authentication, request
-- schemas, routes and status codes.
pub mod Dependencies
pub mod Schemas
pub mod Routers
pub mod Routes
pub mod Lifespan
pub mod Middleware
pub mod Wiring
pub mod Protected
pub mod Integrity
pub mod Creators
pub mod Tokens
pub mod Lockout

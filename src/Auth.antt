-- ===== src/Auth.antt =====
-- Authentication in crates/server: the middleware that checks a request, and OAuth scopes.
pub mod Middleware
pub mod Scopes
mod Tests

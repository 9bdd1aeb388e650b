-- ===== src/Platform.antt =====
-- app/platform: the request's context, the error vocabulary, the decorators and the middleware.
pub mod Context
pub mod Json
pub mod Errors
pub mod Edge
pub mod Decorator
pub mod Firebase
pub mod Routes
pub mod Tracing
pub mod Auth
pub mod Admin
pub mod Lease
pub mod Logging

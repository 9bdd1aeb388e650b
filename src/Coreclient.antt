-- ===== src/Coreclient.antt =====
-- app/coreclient: the way to the core. What a call carries, who signs it, and how the core's
-- vocabulary is read.
pub mod Callauth
pub mod Convert
pub mod Client
pub mod Identity
pub mod Resolver
pub mod Service

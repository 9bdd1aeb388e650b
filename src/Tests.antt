-- ===== src/Tests.antt =====
-- The theorems at concrete inputs.
mod World
mod Encoding
mod Platform
mod Core
mod Demand
mod Delivery
mod Cost
mod Attention
mod Stream
mod Identity
mod Lease
mod Sandbox
mod Store
mod Pump
mod Logging
mod Ports
mod Stack

-- ===== src/Grpcapi.antt =====
-- app/grpcapi: the gRPC port.
pub mod Interceptors
pub mod Convert
pub mod Execution
pub mod Runtime
pub mod SecondFactor
pub mod Stream
pub mod Identity
pub mod Attention
pub mod Resource
pub mod Hierarchy
pub mod Workflow
pub mod Demand
pub mod Server
pub mod Catalog
pub mod Cost
pub mod Delivery
pub mod Knowledge

-- ===== src/Routers.antt =====
-- app/routers: the routes of REST. The framework makes the bodies, with their constraints, and sets
-- the status of a success, before and after a route runs.
pub mod Stream
pub mod Delivery
pub mod Attention
pub mod Catalog
pub mod Cost
pub mod Demand
pub mod Execution
pub mod Health
pub mod Hierarchy
pub mod Identity
pub mod Knowledge
pub mod Resource
pub mod Runtime
pub mod SecondFactor
pub mod Workflow

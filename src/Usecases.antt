-- ===== src/Usecases.antt =====
-- app/usecases: the rules of the edge, one module to a file. `@log` is left out throughout: it
-- writes to the log and changes neither a result nor an exception. So is the deadline of a call.
pub mod Workflow
pub mod Demand
pub mod Delivery
pub mod Cost
pub mod Attention
pub mod Hierarchy
pub mod Forms
pub mod Timestamp
pub mod Identity
pub mod SecondFactor
pub mod Execution
pub mod Resource
pub mod Runtime
pub mod Catalog
pub mod Knowledge
pub mod Stream

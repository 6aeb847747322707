-- ===== src/Runtime.antt =====
-- packages/plugin-runtime/src: the parts that serve the requests of the host.
pub mod Values
pub mod Tracing
pub mod Metrics
pub mod Dispatcher
pub mod Server
pub mod Worker
pub mod WorkerEntry
pub mod ServiceDefinition
pub mod Process
pub mod Pool
pub mod Setup
pub mod Bootstrap
pub mod Context

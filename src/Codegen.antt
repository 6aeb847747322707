-- ===== src/Codegen.antt =====
-- packages/plugin-codegen/src: method identifiers and the contract that codegen and runtime share.
pub mod MethodIds
pub mod Contract
pub mod Handlers

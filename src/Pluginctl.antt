-- ===== src/Pluginctl.antt =====
-- packages/pluginctl: the command line that builds, packs and installs plugins.
pub mod Values
pub mod Manifest
pub mod Integrity
pub mod Validate
pub mod Pack
pub mod Install
pub mod Generate
pub mod Init
pub mod Cli
pub mod Commands

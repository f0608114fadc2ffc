-- ===== src/Commands.antt =====
-- pkg/commands: the options and the run of a command on an artifact.
pub mod Action
pub mod Calls
pub mod Run
pub mod Option
pub mod Plugins
pub mod Remote
pub mod Artifact
mod Tests

-- ===== src/Sandbox.antt =====
-- class DockerSandboxRunner of src/packages/sdk/sandbox_runner.py. What the host's file system,
-- `subprocess`, `asyncio` and the clock answer is a parameter, indexed by the calls made before.
-- Durations are differences of clock readings, and are not rounded; a process that is cancelled is
-- not modelled.
mod System
mod Runner
pub mod Contained
pub mod Preparation
pub mod Truncation
pub mod Containment
pub use System.*
unfoldable pub use Runner.*

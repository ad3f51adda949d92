-- ===== src/Conductor.antt =====
-- conductor/rpc/server.py: the state machine of a tasks execution and of its tasks.
pub mod Env
pub mod Status
pub mod Advance
pub mod Cancel
pub mod Plans
pub mod PostTask
pub mod Handlers
pub mod Create
pub mod Sanity
pub mod Ready
pub mod FirstStatus
pub mod StatusLaws
pub mod Steps
pub mod Rpc
pub mod Samples

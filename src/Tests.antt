-- ===== src/Tests.antt =====
-- A small cluster in memory, runs of the program on it, and the theorems at concrete inputs.
pub mod Fixture
pub mod Runs
mod DeepCopy
mod Startup
mod Fake
mod Resource
mod Clientset
mod Staging
mod Notes
mod Names
mod Queue
mod Factory
mod Manager
mod Rollouts
mod First
mod Live
mod Wiring
mod Cel
mod Restart
mod Workers
mod Matching
mod Failures
pub mod Client

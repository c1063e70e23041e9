-- ===== src/Demo.antt =====
-- internal/demo: the scenario that is driven through the services' HTTP interfaces.
pub mod Console
pub mod Replies
pub mod Texts
pub mod Client
pub mod Scenario
pub mod Trace
pub mod Waiting
pub mod Decoding
pub mod Starts
pub mod Transcript
pub mod Quiet
pub mod Processes
pub mod Reconcile
pub mod Posts
pub mod Steps
pub mod Trades

-- ===== src/DepositSvc.antt =====
-- internal/depositsvc: one bank's deposit service. It builds transactions, has them signed by KeyID at
-- its bank's router, and broadcasts them; it never holds a key.
pub mod Service
pub mod Writes
pub mod Server
pub mod Tasks
pub mod Sends
pub mod Calls
pub mod Requests
pub mod Broadcast
pub mod Signing
pub mod Startup
pub mod Sender
pub mod Effects
pub mod Nonces
pub mod Concurrent
pub mod Errors

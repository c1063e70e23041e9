-- ===== src/Tests.antt =====
-- Runs of the model at concrete inputs, over a small stand-in for go-ethereum and the network.
pub mod Fake
pub mod Coded
mod Shown
pub mod Local
mod Ported
pub mod Routers
pub mod Deposits
pub mod Broadcasts
mod Texts
mod Explorer
mod Nonces
mod Concurrent
mod Town
mod City

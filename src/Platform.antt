-- ===== src/Platform.antt =====
-- What the Go code of this repository calls and does not implement: JSON documents, HTTP messages,
-- go-ethereum, and the machine on which a service runs.
pub mod Json
pub mod Http
pub mod Environ
pub mod Abi
pub mod AbiLaws
pub mod Geth
pub mod Machine

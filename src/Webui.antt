-- ===== src/Webui.antt =====
-- internal/webui: the console that forwards writes to the deposit services and reads the chain.
pub mod DecoderAbi
pub mod Decode
pub mod Shapes
pub mod Explorer
pub mod Tx
pub mod Reads
pub mod Selectors
pub mod Server
pub mod Answers
pub mod Blocks
pub mod Packed
pub mod Calls
pub mod Written
pub mod Logs

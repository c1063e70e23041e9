-- ===== src/SignRouter.antt =====
-- internal/signrouter: the keystore and the server that signs hashes for the keys it was given.
pub mod Keystore
pub mod Server
pub mod Provision
pub mod Sign
pub mod Listening
pub mod KeySet

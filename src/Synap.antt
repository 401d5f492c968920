-- ===== src/Synap.antt =====
-- cards/js/synap2p: the frames of the peer-to-peer operations and events.
pub mod Opcodes
pub mod Frames
pub mod Messages
pub mod Relay
pub mod Dial
pub mod Sub
pub mod UseTopic
pub mod Unsub
pub mod Announce
pub mod Unannounce
pub mod Disconnect
pub mod Peers
pub mod FindProviders
pub mod GenerateCid
pub mod Publish
pub mod DirectMessage
pub mod Events

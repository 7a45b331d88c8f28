-- ===== src/Rpc.antt =====
-- crates/common/src/net/rpc: the broker that multiplexes commands over one connection, and the stages
-- between it and a web socket. A JSON value and a method name are of types that the code never looks
-- into. A sink, a cancel handle and a spawned task are known by numbers of their own.
pub mod Message
pub mod Broker
pub mod Channel
mod Tests

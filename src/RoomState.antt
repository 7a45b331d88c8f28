-- ===== src/RoomState.antt =====
-- crates/irc/src/room_state: who is in a room, and the events that its listeners get.
pub mod Members
pub mod Room
mod Tests

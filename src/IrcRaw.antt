-- ===== src/IrcRaw.antt =====
-- crates/irc-raw: the text form of IRC messages. A write into a `Vec<u8>` or a `BytesMut` cannot
-- fail and appends, so a `write_bytes` is modelled by the bytes that it appends.
pub mod Error
pub mod Slice
pub mod Tags
pub mod Source
pub mod Command
pub mod Message
pub mod Codec
mod Tests

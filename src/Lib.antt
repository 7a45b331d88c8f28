-- ===== src/Lib.antt =====
-- Minibot, a chat bot for Twitch: a model of its own logic, with the theorems that make it correct.
--
-- The program is a server that keeps an IRC connection per channel, answers commands of clients
-- over a web socket, and keeps accounts. Its parts, and the modules here that model them:
--
-- * IrcRaw models crates/irc-raw. `Message::read_bytes` and `write_bytes` are `Message.read_message`
--   and `write_message`, with the tags (`Tags`), the source (`Source`) and the command (`Command`)
--   in modules of their own; `IrcCodec` is `Codec`, where `decode_buffer` takes a buffer and gives
--   the result of a call and the buffer behind it. Utf8 writes out `from_utf8` and `as_bytes`.
-- * RoomState models crates/irc/src/room_state and the `EventSink` of crates/irc/src/futures_util
--   that the rooms send their events through. A delivery is two steps, `start_sending` and
--   `finish_sending`, as the code gives up its lock in between.
-- * Rpc models `Broker` of crates/common/src/net/rpc: a handler gives the broker behind it, the
--   effects on the connection and the sinks, and whether the loop goes on.
--   `Rpc.Channel` models mod.rs there and crates/common/src/net/mod.rs, from the broker to the socket.
-- * WebSocket models crates/common/src/net/ws.rs, and `WebSocket.Upgrade`
--   crates/server/src/net/ws.rs.
-- * TokenSource models crates/server/src/services/live/twitch/token_source.rs, and the ticks of
--   throttled_token_source.rs.
-- * Table models crates/server/src/util/table: `Table` has the index store, `Table.Core` the table
--   with its indexes.
-- * Accounts models crates/server/src/services/fake/account.rs, the accounts in such a table.
-- * Pool models `PoolState` of crates/mq/src/pool.rs.
-- * MqClient models crates/mq/src/lib.rs, as calls of an AMQP server that may refuse them.
-- * Db models the loop of crates/db-postgres/src/pool.rs that tries a transaction again.
-- * Auth models the middleware of crates/server/src/http_server/middleware/authn.rs and the scopes of
--   crates/server/src/util/types/scopes.rs.
-- * Mq models crates/server/src/services/fake/mq.rs, the message broker in memory, with the ids of
--   crates/server/src/util/id.rs and the cell of crates/server/src/util/future/opt_cell.rs.
-- * ByteString models `split_spaces` of crates/byte-string.
-- * Cancel models crates/common/src/future/cancel.rs.
-- * IrcClient models crates/irc/src/client.rs: `Caps` and `Handshake` the login, in a monad over the
--   connection, `Loops` its two tasks, `Handle` the handle of the program.
-- * IrcRpc models crates/irc/src/rpc.rs, calls over an IRC connection.
-- * Login models the login over OAuth2: `Tokens` is the token store of
--   crates/server/src/services/base/token_store.rs, `Handlers` and `Endpoints` are the files of
--   crates/server/src/http_server/authn, with crates/common/src/proof_key.rs, and `Client` is
--   crates/client/src/access_token.rs.
-- * Pipe models the pipes of crates/common/src/future, and `Pipe.Cloner` pipe/cloner.rs.
-- * DockerProc models crates/docker-proc: the arguments for docker and the reading of what it
--   reports.
-- * Base has what they share: tests on numbers and bytes, lists, and `Outcome`, which is a value, an
--   `Err`, a panic, or a loop that ran out of fuel.
--
-- The modules below a component hold the theorems on it and are named for what they show; Tests
-- modules hold concrete runs.
--
-- A text is the list of its code points, a byte string a list of numbers below 256. Maps are
-- association lists. Machine integers wrap around where the code can reach the end of their range.
-- A call that waits is two steps, or an answer that says that it waits; what another task or the
-- other side decides is an argument.
--
-- Fuel: `read_params` is given the length of the text, `decode` one more than the length of the
-- buffer, the search of an index the number of its entries, and the loop over the words of a byte
-- string more than its length. The theorems on them show that this is enough.
--
-- Not modelled: sockets, HTTP, SQL, process control, serialisation and configuration, which other
-- packages do. Where the code relies on such a package, what it relies on is a parameter: JSON, URLs,
-- HTTP, the hash and the encryption of the login, and the IP addresses of the containers.
pub mod Base
pub mod Utf8
pub mod IrcRaw
pub mod TokenSource
pub mod Rpc
pub mod RoomState
pub mod Table
pub mod Pool
pub mod Auth
pub mod Mq
pub mod ByteString
pub mod Cancel
pub mod IrcClient
pub mod IrcRpc
pub mod Login
pub mod Pipe
pub mod DockerProc
pub mod WebSocket
pub mod MqClient
pub mod Db
pub mod Accounts

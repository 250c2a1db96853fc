-- ===== src/Lib.antt =====
-- matrix-bridge-slack is a Matrix application service in Rust that joins Matrix rooms and Slack
-- channels. BridgeCore (src/bridge.rs) receives the events of both sides, looks up which room
-- belongs to which channel in the database, through a cache with a time limit, and calls the
-- clients of the other side. The command handlers turn typed commands into requests for BridgeCore;
-- the converters turn Slack's markup and blocks into Matrix's HTML; the backfill sends the history
-- of a channel to a new room; the user sync and the emoji handler keep what Matrix shows of Slack's
-- users and emojis; the presence handler, the blocker, the provisioning coordinator and the queue of
-- the channels keep their own small states.
--
-- What is modelled, by file:
-- Prelude and its children hold the shared names, Boolean tests, lists and association lists. Text
-- and its children are what the program uses of Rust's str, with lemmas: Text.Replace has replace,
-- split and lines, Text.Decimal the printing of numbers, Text.Slack the entities that
-- src/parsers/common.rs decodes. Json is serde_json's Value. Formatting is src/utils/formatting.rs.
-- Cache is src/cache.rs. Blocker is src/bridge/blocker.rs. Presence is
-- src/bridge/presence_handler.rs. Provisioning is src/bridge/provisioning.rs, in the parts between
-- its await points. Queue is src/bridge/queue.rs: the map from channels to mutexes, the mutexes and
-- the spawned tasks, and Queue.Steps is their step relation. EventHandler is
-- src/matrix/event_handler.rs: the age limit on events and their dispatch. MessageFlow is
-- src/bridge/message_flow.rs with the relations of src/bridge/logic.rs. Command is
-- src/parsers/command_parser.rs, Command.Slack is src/slack/command_handler.rs and Command.Matrix
-- is src/matrix/command_handler.rs. Db is the room and the message store of src/db/sqlite.rs, and
-- Db.Users and Db.Emojis are its stores of users and emojis, with the UNIQUE columns of the schema in
-- src/db/manager.rs: a query is a function of the table. Bridge is BridgeCore: Bridge has its state
-- and its environment, Bridge.Monad the effects, Bridge.Triple the rules to reason with them;
-- Bridge.Rooms has the handlers that bridge and unbridge, Bridge.Matrix those of Matrix events,
-- Bridge.Members those of memberships, power levels and receipts, Bridge.Outgoing those of Matrix
-- messages, Bridge.Slack those of Slack events and Bridge.Messages those of Slack messages, each
-- under its name in the source; Bridge.Guild has those of members, users and teams. Bridge.Backfill
-- is src/bridge/backfill.rs. Bridge.History is the step relation of these handlers, and
-- Bridge.Promises what each of them ensures. UserSync is
-- src/bridge/user_sync.rs and Emoji is src/emoji.rs, over the same state and effects. Blocks is
-- src/parsers/blocks.rs: Blocks.Element has its single elements, Blocks.Plain the plain text of
-- blocks, Blocks.Attachment the attachments, Blocks.Html the grammar of the HTML, and Blocks.Safe
-- what keeps to it. SlackParser is src/parsers/slack_parser.rs: SlackParser.Lists has the conversion
-- of lists and of a whole text, SlackParser.Contents the contents of Matrix events, SlackParser.Emojis
-- the conversions that upload emojis. Embed is src/slack/embed.rs, and Admin is src/admin.rs.
--
-- How the code corresponds: a handler is a function of an environment and a state that gives a
-- result and a state, and what it wrote before an error stays. The environment gives the time, says
-- which query fails, and answers each request of the network in any way at all. The state logs the
-- requests. A handler's `let Some(x) = … else { return }` is a helper by clauses; the blocks that
-- the source repeats (the deletion of a mapping from the table and then from the cache, the prefix
-- on a name) are one definition each. Debug output and logging are left out. Times are numbers.
-- limits.room_count, an i32, is none where it is negative. A Rust panic is an error of the handler,
-- or none where the function makes no calls.
-- Every loop is over a list, but for the one over the pages of a channel in the backfill: Slack says
-- whether there is another page, so the loop runs on fuel, and it ends with any fuel above a rank of
-- the cursors that falls from page to page, if they have one. The number of pages is not bounded
-- otherwise, since a page may hold no message that is sent.
-- The library of regular expressions is a record of the four functions that the source calls, and
-- the encoding of addresses and the order of a HashMap are functions; each is a parameter.
--
-- What is not modelled: interleavings of two handlers at their await points; the conversion of
-- Matrix's text to Slack's markup (src/parsers/matrix_parser.rs and most of src/parsers/common.rs),
-- which is a parameter of the message flow; the send functions of BridgeCore that nothing calls; the
-- clients of Slack and Matrix, downloads and uploads, the web server, the configuration and the other
-- database backends, which are calls of external services or of libraries.
pub mod Prelude
pub mod Text
pub mod Command
pub mod Cache
pub mod Blocker
pub mod Presence
pub mod Db
pub mod Json
pub mod Blocks
pub mod EventHandler
pub mod Emoji
pub mod Formatting
pub mod Bridge
pub mod Embed
pub mod Admin
pub mod Queue
pub mod SlackParser
pub mod Provisioning
pub mod MessageFlow
pub mod UserSync
pub mod Tests

-- ===== src/Lib.antt =====
-- Verification of repartee, a terminal IRC client: models of its components and proofs about them.
--
-- The client keeps one `AppState` (src/state): its connections, its buffers (server windows,
-- channels, queries) with their messages and nicks, and which buffer is shown. The handlers of IRC
-- messages (src/irc/events.rs) and the user's commands call the methods of that state. On the way
-- in a message meets the flood detectors (src/irc/flood.rs) and the netsplit detector
-- (src/irc/netsplit.rs), which decide whether it is shown, unless the server sends it in a batch,
-- which collects it until the batch ends (src/irc/batch.rs); a message that reaches a buffer goes
-- to the log queue and to the queue of events for the web clients. On the way out the text of an
-- encrypted conversation is cut into chunks (src/e2e/chunker.rs), each of which is written as a line
-- (src/e2e/wire.rs). Who may be a web client is decided by src/web/auth.rs, and whose messages are
-- ignored by src/irc/ignore.rs. The user edits a line (src/ui/input.rs), which is split into a
-- command and its arguments (src/commands/parser.rs). Two users may chat without the server over a
-- connection that src/dcc manages.
--
-- Base: Boolean tests on numbers (Base/Tests), lists (Base/Lists), texts (Base/Texts), and tables
--   as association lists with the lemmas on lookup, insertion and removal (Base/Maps). A
--   `HashMap`'s order is the order of insertion; an `IndexMap` keeps that order in the program
--   too. Numbers has the decimal texts of numbers and `parse`, Chars what the client uses of `char`
--   and `str` on code points, Graphic the lemmas on printable texts.
-- Flood: src/irc/flood.rs. Flood.antt has `FloodState` and `prune_window`, Flood/Checks one
--   function for each method. Limiter describes a sliding window with a block on its own, Keyed a
--   table of such limiters that is swept now and then, and Rates is about the CTCP, nick and
--   tilde detectors as such limiters. Isolation runs arbitrary sequences of events. Storm and
--   Duplicates are about the detectors that see all senders at once.
-- Netsplit: src/irc/netsplit.rs. Netsplit.antt has the state, Detect the recognition of a quit
--   message, Format the announcements, Handlers `handle_quit`, `handle_join` and `tick`. Hosts,
--   Index, Rejoin and Ticks hold the proofs about hosts, the nick index, rejoining and announcing.
-- Batch: `BatchTracker` of src/irc/batch.rs; Batch/Collected runs sequences of its events,
--   Batch/Purged is about the purge.
-- E2e: src/e2e/mod.rs (`context_key` and the limits) and src/e2e/error.rs; E2e/Chunker has
--   `split_plaintext` of src/e2e/chunker.rs, Utf8 what a well-formed text is, Chunks and Split the
--   proofs. E2e/Wire has the lines of src/e2e/wire.rs; Lines says what is relied on of hexadecimal
--   and base64 coding and reads an encoded line, Parsed is about any line, Aad about the
--   authenticated data, and Coders has coders that meet what is relied on.
-- State: src/state. State.antt has the types of buffer.rs, connection.rs and the wire and log
--   types; Buffers the speaker list and the scrollback; Sorting the orders of sorting.rs; App,
--   Active, Messages and Nicks the methods of events.rs; Speakers, Shown and Steps the proofs
--   about one buffer, the shown buffer and sequences of methods. Gate has the methods in front of
--   them, which hide suppressed events and hand long links over, and `find_long_urls` of
--   src/shrink/mod.rs.
-- Events: src/irc/events.rs, the handlers of what a server sends. Events.antt has what they share,
--   Lifecycle the connection itself, Caps its capabilities, Members JOIN, PART and QUIT, Kicks KICK,
--   Modes and Bans MODE, Renames NICK, Status the messages about users and channels, Talk PRIVMSG,
--   Notices NOTICE, Encryption the calls of src/e2e that these two make, Names the replies, Denied
--   the refused JOIN, and Dispatch one function for all of them; Retry has `check_reconnects` of
--   src/app/irc.rs. Sound and Kept (with a part for each group of handlers) are about panics and the
--   shown buffer under any sequence of events, Spoken about the panic of PRIVMSG, Posting about what
--   a message leaves alone, Quits, Left and Renamed about who is listed in a channel, Reconnect and
--   Retried about coming back, BanLists, Letters, Negotiated and Entries about ban lists, mode
--   letters, capabilities and NAMES.
-- Web: src/web/auth.rs. Auth has `RateLimiter` and the two parts of `login_handler` of
--   src/web/server.rs, between which other logins come in, Lockout its proofs; Sessions has `SessionStore` in memory,
--   Tokens and SignedIn its proofs.
-- Input: `InputState` of src/ui/input.rs. Strings, Edits, Spelling and Completion have its methods,
--   in which a panic is `none`, since its offsets count bytes. Line is the line of text without
--   offsets; Words, Keys, Refines, Panics, History, Corrections and Completions hold the proofs. The
--   documentation and the names of emotes that the program embeds are parameters.
-- Dcc: src/dcc. Dcc.antt has the types, Protocol the messages of protocol.rs, Manager the methods of
--   `DccManager` and the answer to a passive offer in src/app/irc.rs, Ports the port range of
--   chat.rs and `pick_bind_port` of src/commands/handlers_dcc.rs. Offers, Ids, Renames, Sessions and
--   Closing hold the proofs.
-- Irc: Irc/Extban has src/irc/extban.rs, Masks its proofs; Irc/Ignore has src/irc/ignore.rs with its
--   cache passed along, Cache its proofs. Irc/Isupport has src/irc/isupport.rs, Advertised its
--   proofs, and Irc/Caps src/irc/cap.rs. Irc/Formatting has src/irc/formatting.rs on bytes, Stripped
--   its proofs.
-- Commands: `parse_command` of src/commands/parser.rs.
-- Each component has a module Tests with runs at concrete inputs.
--
-- A text is the list of its UTF-8 bytes; in State, Events, Input, Commands, E2e/Wire, the messages of
-- Dcc, and Irc, which look at characters, it is the list of its code points. What Events uses of
-- Flood, Netsplit and Irc/Formatting looks at ASCII characters only and is the same on both. Instants and
-- durations are milliseconds, and a function that reads the clock takes the time as its argument
-- `now`; Unix times are seconds. Where the
-- source wraps or saturates, so do the definitions (`% 4294967296`, `min`, `saturate_u8`).
-- Three loops run on fuel. That of `strip_irc_formatting` has the length of the text, of which each
-- round takes a byte. That of `split_plaintext` has the length of the text: every round takes at
-- least a byte or ends the loop, so the fuel outlasts the text. That of `generate_id` has one more
-- than the number of records, which cannot all stand in its way. Decimal texts are written with the
-- number as fuel, as every digit makes it smaller. Every other loop is recursion on its list.
--
-- Code outside the repository is a parameter: the hash of a text and the keyed hash of a token,
-- Unicode lower case, the JSON form of message tags, fresh identifiers, the room in the log queue
-- and in that of the link shortener, the matches of a regular expression, the previews of links,
-- hexadecimal and base64 coding, IPv6 texts, RFC 3339 times, the compiler of regular expressions,
-- random ports and the channels of tasks.
--
-- Not modelled: the terminal, sockets, TLS, SQLite and the Lua interpreter, which are calls of
-- libraries; the asynchronous main loop; cryptography; the file of the session store; the handlers of
-- commands; the WHOIS and list replies and most other numeric replies among the handlers of IRC
-- messages; what the encryption manager answers, of which Events has the calls; and the parser of themes.
pub mod Base
pub mod Batch
pub mod Commands
pub mod Dcc
pub mod E2e
pub mod Events
pub mod Flood
pub mod Input
pub mod Irc
pub mod Netsplit
pub mod State
pub mod Web

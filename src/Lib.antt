-- ===== src/Lib.antt =====
-- Sakura-Nexus: the forwarding of the messages of channels, their conversion and sending, the settings,
-- the login of the web interface, the supervision of the services, and two small services.
--
-- The program. A user session receives channel messages and hands them to the forwarding engine
-- (internal/forwarding/engine.go). The engine collects the members of an album (album.go), and for
-- every rule of the source observes the group in the cursor of the rule (cursor.go), drops duplicates
-- and what the rule does not accept (filters.go), and queues a task. A consumer takes the tasks from the
-- queue, waits, rewrites, adds the footer (footer.go), sends with retries and finishes the messages in
-- the cursor, which is stored as it moves. After a restart the messages above the stored cursor are
-- fetched again, so the cursor must never pass a message that is not finished.
--
-- The files.
--   Base            Boolean tests on natural numbers, lists, texts as code points, maps as association
--                   lists, substrings
--   Domain          internal/domain: the data and the text forms of kinds and styles
--   Forwarding/Cursor   internal/forwarding/cursor.go: newCursorTracker, observe, terminal, current,
--                   pending; Loops and Terminal are about one call, Trace about sequences of calls
--   Forwarding/Album    internal/forwarding/album.go: Add, FlushDue, FlushAll, Pending
--   Forwarding/Filters  internal/forwarding/filters.go: BuildFilterView, MatchSource, ShouldForward
--   Forwarding/Footer   internal/forwarding/footer.go: SourceLink, RenderFooter, ChooseFooter
--   Forwarding/Engine   internal/forwarding/engine.go. State: the dependencies, the parameters, the
--                   state, refreshRules, delayFor, classifyFailure. Process: from a group to the queue.
--                   Retry: sendWithRetry. Execute: one task. Control: HandleNew, ApplySettings, the
--                   passes of the loops, drain and Backfill; Control/Reach: the steps of the
--                   goroutines and the engines that they reach, Control/Passes: the passes are made of
--                   these steps, Control/Settles: the fuel of drain
--   Telegram/RichBlock, RichLine, RichParse   internal/platform/telegram/rich_blocks.go: the blocks, the
--                   tests on a line, ParseRichBlocks
--   Telegram/RichSplit  internal/platform/telegram/rich_split.go
--   Telegram/Updates    internal/platform/telegram/updates.go: Dispatcher, ConvertMessage, Recovery;
--                   Entities and Media hold convertEntities and convertMedia, with the way back of
--                   outbound.go (tgEntities, mediaAttributes)
--   Telegram/Outbound   internal/platform/telegram/outbound.go: SendText, sendTextMTProto; SendMedia:
--                   SendFiles, ForwardMessages; TextSplit: splitLongText
--   Telegram/Peers, History   internal/platform/telegram/peers.go: InputPeer, IsPermanentSendError;
--                   history.go: GetHistory; Wizard: wizard.go, the login, whose goroutine
--                   stops where it sends into a full channel or receives from an empty one
--   Telegram/RichOutbound   internal/platform/telegram/rich_outbound.go: richRouter
--   Botapi          internal/platform/botapi: ChatID, Client.Call
--   Ai              internal/platform/ai/provider.go: Rewrite
--   Config/Settings     internal/config/settings.go: the settings and their checks; Center:
--                   SettingsCenter
--   Config/Env      internal/config/env.go: Load
--   App/Lifecycle   internal/app/lifecycle.go: supervise, coreFatal, RequestRestart, closeAll; Moves has
--                   the steps as relations, Backoff, Ends, Stops and Closing are about runs
--   Webapi          internal/webapi/auth.go: sessions, login lock, handlers
--   Logging         internal/logging/ring.go: the ring of log records; Fanout: fanout.go
--   Availability    internal/availability/availability.go: a published flag and its subscribers
--   Examples        concrete runs
--
-- How the code is modelled. The database, Telegram, the clock, randomness and the context are
-- functions on an unknown world in the record of dependencies; an operation takes the engine and the
-- world and returns both. Such an operation is what one goroutine does by itself. What the goroutines do
-- together is `Reachable`: a step is what one of them does under one lock, or one operation on the queue
-- or a counter, in any order and each with a world of its own. The sending of a task and its counting are
-- two steps, and so are its receipt and its settling, as no lock joins them. The queue is a list, and
-- blocking on a full queue is
-- the answer of `admit`. Ids, sizes and times are natural numbers and do not overflow; delays of a rule
-- are integers of nanoseconds in place of floating-point seconds. `unicode.ToLower`, case folding and
-- regular expressions of the Go library are parameters of the filters, and so is the hash of a text; the
-- splitting of a rich message starts from its blocks, and `rich_text_messages` puts the parser before
-- it. JSON, SQL, HTTP and the calls of Telegram are parameters where they are used, and the types of the
-- Telegram library have a constructor for each case that the source tells apart. The supervisors are a
-- list of states, and a run is a list of their moves in any order.
--
-- Fuel. `drain` polls in an endless loop, so it has fuel, one unit for one pass. In the model of its run the
-- consumer makes one pass between two polls, and no other goroutine makes a step, though the source polls
-- every 5 ms whatever the consumer does; a pass settles one task, and the last one finds that none is
-- left. `split_loop` has a unit for every character of
-- the text, as every round takes at least one, and `parse_lines` one for every line. The retries of a
-- call count down from three. All other loops recurse on their lists.
--
-- Not modelled: logs, the start and stop of the goroutines of the engine, stale temporary directories,
-- the normalizing of rich text, the readiness barrier, the removal of the token from error texts, and
-- the other packages: storage, the set-up of the Telegram clients, the other handlers of the web
-- interface and the commands, which are mostly calls of libraries.
pub mod Base
pub mod Domain
pub mod Forwarding
pub mod Telegram
pub mod Webapi
pub mod Logging
pub mod Availability
pub mod Botapi
pub mod Ai
pub mod Config
pub mod App
pub mod Examples

-- ===== src/Lib.antt =====
-- Victoria: an engine that runs a small business's cases, shows every decision to an operator over a
-- messenger, and turns the operator's corrections into rules. This library models the engine with
-- its in-memory store.
--
-- How the program hangs together. A customer's message (internal/app/app.go, HandleWhatsAppInbound)
-- becomes a case (IngestCustomerMessageWithPacket, StartCase): the active skill version decides it, or
-- an agent proposes an action, and a review packet goes to the operator through the gateway
-- (internal/app/gateway.go), which queues it while the channel is down. The operator's reply becomes
-- a signal (ReceiveInbound, persistSignal): an approval releases the reply to the customer, a
-- correction is parsed into a rule and merged into a candidate (mergeCandidate). A candidate is
-- promoted by hand (PromoteCandidate) into a new immutable skill version.
--
-- The files, and the code each one models:
--   Prelude, Exec, GoMap, Sort, Text: shared names; methods as functions from the state to a result
--     and a state, where what was written before an error stays written; Go's maps as lists of
--     entries in the order of iteration; sort.Slice; the functions of package strings that are used.
--   Domain: internal/domain. String types stay strings, parsed where the code parses them.
--   Memory: internal/store/memory/store.go, one definition for each method.
--   Rules, Intent, Channel: internal/app/rules.go, the classification of an operator's words in
--     internal/app/app.go, and internal/channel/adapter.go.
--   App: the engine. App.World is the state that its methods share, App.Env what it is given.
--     App.Gateway is internal/app/gateway.go; App.Outbound has the guard of
--     internal/channel/whatsapp/adapter.go; App.Ingestion, Cases, Signals, Candidates, Promotion, Mcp,
--     Commands and Operator are the methods of internal/app/app.go by subject.
--     App.Provisioning and App.Queries are its methods for administrators. App.Telegram is
--     HandleTelegramInbound with internal/channel/telegram/adapter.go.
--   Http: internal/httpapi/server.go, a constructor of Call for each route and a definition for each
--     handler, as methods of the engine that answer a status and a body.
--   Whatsapp: internal/channel/whatsapp/adapter.go (Session, with Messages, Replies and Echoes) and
--     the sweep of internal/channel/whatsapp/priv2sweeper.go (Sweep). The session calls the engine
--     back, so its state is a pair of the engine's world and of its own clients.
--   Agent: internal/agent/deepseek/agent.go, the client of the language model.
--   App.Frame: relations that every step of the engine keeps, and with them every method behind an
--     operator's signal; it is filled once for each part of the store that is to be followed.
--   Examples: a concrete world, and each property applied in it.
--
-- Parameters. The SHA-256 digest and the JSON encoder (Domain.Hashing), float64 arithmetic
-- (Domain.Floats), the random identifiers, the texts of times and errors, the agent and the answers
-- of the adapters (App.Env), the random bytes of a secret, the WhatsApp network (Whatsapp.Network),
-- the language model's server with its JSON (Agent.Service), the QR encoder, and whether the
-- database refuses a deletion are code from elsewhere; the HTTP interface takes the session manager
-- as the interface that it declares for it. The theorems hold for every choice of them, and assume
-- nothing of them. That a NULL cannot be scanned into a string is taken from the database driver's
-- documentation. The clock shows one instant during a method.
--
-- Bounds. Numbers are unbounded naturals; the counts and versions of the code stay far below the
-- range of its integers. Times are nanoseconds since an origin, 0 standing for the zero time. Texts
-- are cut by whole characters where the code cuts bytes; letters are folded as ASCII. An int of the
-- reply parser keeps its 64 bits. Loops are structural recursion over lists, so that no fuel is
-- needed but in the printing of decimals, where the number itself is enough.
--
-- Not modelled: the PostgreSQL store, which is SQL text run by a server (the in-memory store has the
-- same contract); BeginPairing, abortPairing, New and Close of the WhatsApp manager, which work on
-- channels, contexts and goroutines of the third-party client; the ticker around the sweep; the
-- router and the JSON decoder in front of the handlers, of which Call holds what they have read; the
-- development endpoints; and the process. A lock that a method holds makes it one step.
pub mod Prelude
pub mod Exec
pub mod GoMap
pub mod Domain
pub mod Sort
pub mod Text
pub mod Rules
pub mod Intent
pub mod Channel
pub mod App
pub mod Memory
pub mod Http
pub mod Agent
pub mod Whatsapp
pub mod Examples

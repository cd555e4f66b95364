-- ===== src/Lib.antt =====
-- stelfin: a treasury service that keeps a ledger of what a DAO's accounts hold on the Stellar
-- network, answers in chat, and reads other services through connectors that the DAO has granted.
--
-- The parts that this library models, and the files of the repository that they follow:
--
--   Money      internal/money/money.go. An amount is a whole number of stroops, an int64: `add`, `sub`,
--              `neg` and `sum` with their overflow checks, and `parse`, `to_string`, `display`. A machine
--              integer is an exact integer with its wrap-around written out (`wrap`).
--   Ledger     ledger/ledger.go. `validate` and `fingerprint` of a request; Ledger/Books is the database
--              of ledger/migrations/00001_core.sql with its checks and triggers, and `post` and `balance`
--              on it; Ledger/Registry is `EnsureAsset` and `EnsureAccount`, and Ledger/Messages
--              ledger/store/message.go, which claims a delivery.
--   Ingestion  ingestion/ingestion.go. Records of the chain posted to the ledger, one cursor for each
--              stream: `once` is a round, `apply` a record, `apply_movement` a movement.
--   Connector  connector/guard.go, connector/rate.go, connector/mcpclient/breaker.go,
--              connector/egress/addr.go and connector/amount.go: the gate that each call of a
--              connector goes through, its limiter, the circuit breaker of the client, the
--              addresses it may dial, and the reading of an amount out of a cell.
--   Store      ledger/store: Store/Proposals is proposal.go, the envelopes that wait for signatures, on
--              the tables of migration 00006; Store/Members is member.go, members with their chat
--              accounts and roles; Store/Challenges is challenge.go, the proof of an address and the
--              codes that link a chat account.
--   Chat       chat/command.go and chat/chat.go, roles and channels; Chat/Split is chat/split.go.
--   Core       core/router.go: a message from its delivery to the command it names, on the tables of
--              Store/Members and the claims of Ledger/Messages. Core/Roles is core/roles.go, the
--              commands that change roles.
--   Settlement settlement/retry.go: how often a request to the network is sent.
--   Text       what the code uses of Go's strings, strconv and fmt; Prelude the shared helpers.
--
-- A Go function of type (T, error) returns a Result. Code that changes state takes the state and returns
-- it: a failed Post rolls back and leaves the books, a failed round of ingestion keeps what it has
-- committed. A Go map is an association list or a function, and no statement depends on an order that Go
-- leaves open. A mutex makes an operation one step; calls that overlap are sequences of such steps
-- (Connector/Breaker/Reach, Store/Proposals/Reach). A transaction of the database is one step, too. Ids
-- and times are natural numbers; a time is in nanoseconds.
--
-- Two loops take fuel. For the digits of a number the number itself is enough, since each round divides
-- it by ten. For the cutting of a word in Chat/Split the length of the word is enough when the limit is
-- two code units or more, since each round takes a character off; without fuel the result is `none`.
--
-- Arguments of the model: SHA-256 (`hash`, `digest`), the database's lower(), strings.TrimSpace on a
-- cell (Connector/Amount), what a source returns, where grants are read from, the limiter that a
-- deployment shares, what the network answers, the commands behind the router, the random letters of a
-- link code, and what the columns of the tables of challenges allow.
--
-- Not modelled: the texts of errors, failures of the database itself, gaps in its numbering of rows,
-- whether metadata is valid JSON, the lists of proposals and members for display, and the service's other
-- parts: chat platforms and pages, the texts of the commands, the building and signing of transactions,
-- the contracts, and the tables that only those use.
pub mod Prelude
pub mod Text
pub mod Money
pub mod Ledger
pub mod Connector
pub mod Ingestion
pub mod Settlement
pub mod Store
pub mod Chat
pub mod Core

-- ===== src/Lib.antt =====
-- PriceScount: a price watch for Wildberries products, as a gateway, a scheduler, an extractor, a
-- notifier and a Telegram bot that talk over RabbitMQ and keep their state in PostgreSQL.
--
-- Parts and files:
--   * Base, Env, Contracts: shared lemmas; what PostgreSQL, google/uuid, net/url and fmt give, as the
--     parameter `Env`; the messages of shared/pkg/contracts.
--   * Outbox: the table of events (Table), its leases (Lease: Claim, MarkPublished and Retry of both
--     services' internal/store/outbox.go) and a turn of the worker (Worker: shared/pkg/outbox).
--   * Gateway: the database (Db: migrations/init.sql), ProcessPriceResult (Results, and Alerts for its
--     loop over the subscriptions: internal/store/results.go), lookups, snapshots, force requests
--     (Monitoring) and the operations on subscriptions (Subscriptions: internal/store/monitoring.go).
--   * Scheduler: ApplySnapshot (Snapshot), EnqueueDue (Dispatch) and EnqueueForce (Force) of
--     services/scheduler/internal/store/dispatch.go.
--   * Platform: Detect and NormalizeWB of shared/pkg/platform.
--   * Gateway.Store and Gateway.Handler: internal/store/store.go and the routes of
--     internal/handler/handler.go; Gateway.Consumer and Scheduler.Consumer: what becomes of a message,
--     with the answers of Delivery; Gateway.Cleaner: a tick of internal/cleaner.
--   * Notifier: Send (Alert: services/notifier/internal/alert) and handle of the consumer (Consumer).
--   * Extractor: the two handlers of services/extractor/internal/consumer.
--   * Strings and Marketplace: the functions of Go's strings that the code calls, and wb.go of
--     shared/pkg/marketplace (Price: what a text says of the price; Page: fetchProduct).
--   * Broker: rabbitmq.go of shared/pkg/broker: the state of a connection (Broker), the publisher
--     channel (Publisher), publish and its wait for the confirm (Publish), the connection and its
--     retries (Connect), the declarations and the consumers (Queues), the broker's life as steps (Life).
--   * Bot: the session of a chat (Sessions: services/bot/internal/state), texts and prices (Text:
--     internal/bot/helpers.go), the pages of a list (Pages: internal/bot/mylist.go), the dialog of a
--     chat (Dialog: bot.go, search.go, edit.go and mylist.go of internal/bot), the polls and the
--     workers that handle the updates (Updates: dispatch.go and Run of bot.go) and the client of the
--     gateway (Client: services/bot/internal/gateway/client.go).
--   * Tests: runs of the above on small inputs.
--
-- How they meet: the gateway writes an event into its outbox in the transaction that changes its
-- tables; the worker delivers it; the scheduler applies the snapshot with the highest version and
-- answers with scraper tasks; the extractor's result comes back to ProcessPriceResult, which may add
-- a notification for the notifier.
--
-- Correspondence: a transaction is a function from the database to a result and a database (`Tx`),
-- and an error drops the new database. Row locks and advisory locks make the transactions run one
-- after the other, so that a step is a whole transaction. A sentinel error (ErrNotFound,
-- ErrInvalidResult, ErrInvalidRequest) is a constructor of `Fault`, every other error of a statement
-- is `database`; lost connections are left out. `env` and `now` are what a transaction reads from
-- outside: the parsers and the clock. A value that the code or the database draws at random
-- (a UUID) is an argument, or `new_task_id` for the id of a task that nothing reads again.
--
-- Bounds and forms: a UUID is a 128-bit number, a time counts microseconds and 0 is Go's zero time,
-- an int64 is its 64-bit pattern and `incr64` wraps. A float64 is NaN, an infinity or a whole number
-- of units of 2^-1074, so that comparison is exact; a NUMERIC(12,2) column reads back what
-- `env.numeric` says and may refuse a value. An event key is a constructor with its parts in place of
-- their text. The attempts of an outbox row stay below 2^31. A loop is over a list or a text, with
-- four exceptions: `decimal`, whose fuel of 20 is the number of digits that a 64-bit number can have;
-- `xor_bits`, by the 32 bits of a hash; the attempts of ConnectWithRetry, by the number of attempts
-- left; and PollLookup, by the answers that its ticks receive. The polls of Telegram are a list of
-- rounds, as long as the bot runs.
--
-- The broker and the bot: what the AMQP library answers is an argument (`Setup`, `Attempt`, `Redial`,
-- `Call`), a select is the sequence of what it receives (`Wait`), and what the program asks of the
-- library is a trace, newest first. A section under a mutex is one step; a Boolean argument says
-- whether another goroutine calls Close between two sections. What the bot asks of Telegram and of
-- the gateway is a trace as well (`Act`). The goroutine of a lookup is two steps of its own, its end
-- (`finish_lookup`) and the return of its slot (`release_lookup`), which may come at any time after
-- its start. The dispatcher of the updates, its eight workers and the context are steps that come in
-- any order (Updates); a step that would block changes nothing.
--
-- Not modelled: JSON, HTTP and AMQP transport, logging, process setup and configuration, the start of
-- a headless browser and its script, listSubscriptions with UserSubscriptions, the HTTP middleware,
-- and the bot's HTTP client. They are calls of libraries, or glue around the operations above.
pub mod Base
pub mod Env
pub mod Contracts
pub mod Delivery
pub mod Outbox
pub mod Gateway
pub mod Platform
pub mod Scheduler
pub mod Notifier
pub mod Tests
pub mod Extractor
pub mod Bot
pub mod Broker
pub mod Strings
pub mod Marketplace

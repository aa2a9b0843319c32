-- ===== src/Lib.antt =====
-- The notification service: an HTTP API that accepts bulk requests, a database, an outbox that is
-- published to RabbitMQ, and workers that send the notifications of their queues to providers.
--
-- Parts and files. Paths in the comments are those of the repository.
--   Base, Base.Tests, Base.Lists: Boolean tests and lists over the native numbers.
--   Exec: methods that change a state and may raise, with what was written before the raise.
--   Config: the settings of app/core/config.py that the modelled code reads. Config.Backoff: the
--     parsing of `retry_backoff_list`.
--   Models: the rows of app/db/models.py and the request and response of app/schemas.
--   Platform: PostgreSQL behind SQLAlchemy, Redis, the clock, uuid4, text forms and hashing, as a
--     record `Env` of operations and documented laws. Platform.ListTable is an instance of a table.
--   World: the five tables, Redis, the position in the clock and in the stream of uuid4;
--     `transaction` is `async with session.begin()`.
--   Providers: the result of a provider (app/providers/base.py). Providers.Mock: the mock providers
--     (mock.py) and the choice of one for a channel (factory.py).
--   Services.Idempotency: `IdempotencyService`. Services.OutboxService: `add_outbox_event` and
--     `notification_payload`. Services.RetryPolicy: `RetryPolicy.decide`.
--     Services.StatusTransitions: `can_transition`.
--   Services.Notifications: `NotificationService.create_bulk`, split where it branches: `with_lock`
--     (the Redis lock and the `finally` block), `create_locked` (the `try` on IntegrityError),
--     `create_block` (the transaction), `create_batch` and `add_recipient` (its loop).
--     Services.Notifications.Queries: `list_for_subscriber`, `get_notification` and `_to_item`, with
--     the response models of app/schemas. Its other child modules are about what `create_bulk`
--     leaves: Locking, Creation, Endings, Acceptance, Announcements, Announced, Visible, Replay, Atomic,
--     Orphans, Ownership. Services.BulkRows: the rows and texts that it builds.
--   Services.Idempotency.Owners, Services.Idempotency.Reservations: which record a batch with a key
--     belongs to. Services.IdempotencyCleaner: `cleanup_once`, its Rounds and its Race.
--   Worker.Attempts: `NotificationAttemptService`. Worker.ResultHandler: `ProviderResultHandler`.
--     Worker.OutboxEvents: `NotificationOutboxEvents`. Worker.Processor: `NotificationProcessor`.
--     Worker.RowSteps: the steps of a row and what every worker keeps of it. Worker.Runs: sequences of the transactions
--     `reserve` and `apply` of any number of workers, for any messages, in any order.
--     Worker.ResultHandler.Session: `apply` on the session of
--     `reserve`, with its Late. Worker.ResultHandler.Outcomes, Worker.Processor.Rounds, Worker.Progress: what one result, one
--     message and a history of messages make of a notification. Worker.Attempts.Outstanding: the
--     events that bring a notification back. Worker.Processor.Reserved, Worker.Processor.Sent: the
--     two transactions of one message. Worker.Recovery: a provider that fails once. Worker.Loop:
--     `Worker` of app/worker/main.py.
--   Api: the routes of app/api/v1, with Api.Bulk; Api.Health: the health check of app/main.py.
--   Messaging.Topology: the exchanges and queues of `RabbitMQTopology`, with its Routes and the
--     Destinations of the events that the services write. Messaging.Publisher:
--     `NotificationPublisher`. Messaging.OutboxPublisher: `OutboxPublisher`, with its Claims, Marks
--     and Deliveries.
--   System: the service as a whole. System.Rabbit: RabbitMQ as an interface of calls and documented
--     laws. System.Steps: the steps of the requests, the cleaner, the publishers and the workers on one
--     database and one broker. System.Growth, System.Workers, System.Keys, System.Requests: what each
--     transaction adds to the outbox; System.Changes, System.Reserving, System.Applying and
--     System.Requests reduce such a statement on a transaction to the writes of the transaction, and
--     System.Recipients has those of one recipient. System.Marked, System.Publishers,
--     System.Publications: what becomes of the events. System.Carried, System.Acks, System.Lossless:
--     where each notification is. System.Tracking reduces a statement on the tables over any steps to
--     the transactions. System.Trail, System.Records, System.Recorded: the history. System.Lives: the
--     life of a row. System.Single: the recipients of a batch.
--   Schema: the tables as app/db/models.py declares them to SQLAlchemy. Schema.Migration: `upgrade` and
--     `downgrade` of migrations/versions/0001_initial.py as the calls of Alembic that they make;
--     Schema.Migration.Agreement: what they leave.
--   Tests: each theorem on a concrete platform.
--
-- How the parts interact. `create_bulk` writes the rows of a batch and one event in the outbox for
-- each recipient in one transaction. `publish_pending` claims events, publishes each and marks it.
-- `process` reserves an attempt in one transaction, calls the provider outside of any transaction,
-- and applies its result in another one; both may write further events to the outbox.
--
-- Representation. UUIDs are numbers, with `uuid_str` and `uuid_of` as their text form. Times are
-- microseconds, and every reading of the clock or of uuid4 takes the next value of a stream; the
-- clock does not go back. Numbers of seconds are not negative. Status columns are data types with
-- the values of the enums of the source. `session.add` writes at once, in the order in which the
-- flush does it; a raise inside a transaction undoes the writes to the tables, but no reading of the
-- clock and no write to Redis. Everything is structural recursion over lists, so there is no fuel.
--
-- Sessions. `reserve` and `apply` of one message run on one session, which keeps the object of the row
-- that was handed out, and SELECT FOR UPDATE does not load it again. `apply_loaded` is `apply` on that
-- object, with SQLAlchemy's flush, which writes the columns that changed; `process` and Worker.Runs have
-- it, so a late `apply` may turn delivered into dropped. `apply` loads the row; the two agree while no
-- other worker comes in between. The steps of System have `apply` on the row as the database has it.
--
-- What is assumed. The laws of `Table` say that a read gives the last write of a key, that a query
-- gives the rows that meet its condition, each once, and that a sort keeps the rows and orders them.
-- The laws of `RedisClient` are those of GET, SET NX EX and DEL on a server that shares the clock; any
-- call of it may raise, after the server ran the command or without that.
-- The rows that `SKIP LOCKED` leaves out are given by a parameter `held` of the claim. The broker
-- and the providers are parameters that may raise. Where a theorem follows messages through the
-- broker, the laws of `Rabbit` say that a publication which returns is in the queues bound to its key,
-- that an acknowledgement takes away no message with another body, and that no other call does. Where
-- a theorem needs the UUIDs to be distinct, it says so. The laws of `Ddl` say that dropping a table or an
-- index that was just created undoes its creation. A worker acknowledges a message together with
-- its last transaction for it, so no other step comes between these two.
--
-- Not modelled. The wiring of FastAPI, logging, connections and migrations/env.py are glue of third-party
-- libraries. The endless loops of the worker, the publisher and the cleaner are modelled by one turn
-- each; what they add is a sleep. The reading of settings from the environment is pydantic. Of the
-- identity map of a session only what `apply` finds there is modelled.
pub mod Base
pub mod Config
pub mod Exec
pub mod Models
pub mod Platform
pub mod World
pub mod Providers
pub mod Services
pub mod Worker
pub mod Messaging
pub mod Api
pub mod System
pub mod Schema
mod Tests

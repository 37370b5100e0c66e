-- ===== src/Lib.antt =====
-- A service for orders (a NestJS application over PostgreSQL and RabbitMQ): an authenticated user
-- creates an order under an idempotency key, the order takes its products from stock in one
-- transaction and is announced on a queue, and a worker processes the announced orders, with
-- deduplication, retries and a queue of dead letters.
--
-- The parts and their files. The paths are from the repository's root.
--   Errors: src/common/errors.ts, the domain errors (code, httpStatus, message, details), and the
--   exceptions and results that every method ends with. Exec is the monad of an asynchronous method:
--   a state goes in, a result or an exception and the state come out, as what was written before a
--   throw stays written.
--   Schema: the entities (src/orders/order.entity.ts, order-item.entity.ts,
--   src/products/product.entity.ts, src/users/user.entity.ts, src/common/processed-message.entity.ts)
--   as rows, and the tables by their keys.
--   Database: the calls of TypeORM that the code makes, as a record of operations, since TypeORM and
--   PostgreSQL are not code of the repository. Database.Contract says what they are relied on for:
--   Laws is what a call that succeeds has done, IsUp that a call fails only for the reason that the
--   constraints of src/migrations give. Database.Memory is a database in memory that meets both, so
--   that neither is empty.
--   UnitOfWork: src/common/unit-of-work.ts, a transaction with its own connection (create, commit,
--   rollback, dispose, asyncDispose) and the block `await using` around the callback.
--   RabbitMq: src/rabbit-mq/rabbit-mq.service.ts, send, getChannel, and in RabbitMq.Deliveries the
--   callback of consume. The channel of amqplib is a record of operations with its contract, which
--   RabbitMq.Wire meets. RabbitMq.Connection has the rest of the service: getConfig, onModuleInit,
--   assertInfra, consume and onModuleDestroy, on another record for amqplib's connections; Lifecycle
--   states what holds between the two ends. Messages: src/orders/process-order-message.dto.ts and
--   its JSON.
--   Orders.Repository: src/orders/orders.repository.ts, order-items.repository.ts and
--   src/products/products.repository.ts, on the connection of a transaction.
--   Orders.Service: src/orders/orders.service.ts. create_order is createOrder: place_order is the
--   callback of the transaction (add, then fill_order for a new order), Reservation.reserve its loop
--   over the products, announce what follows the transaction. Placement is the abstract
--   specification, a function on the tables and the condition under which it applies; Steps, Reserved,
--   Refinement, Creation and Outcome lead from the code to it, Guarantees states it; Possible and
--   Total are about when a call returns, Idempotency about the same request again, Stock about
--   sequences of requests, Unannounced about a service without a channel,
--   Counting and Refusal about requests that cannot be placed.
--   Orders.Listing: findById, list and toDto of src/orders/orders.service.ts, find of
--   src/orders/orders.repository.ts and the handlers of src/orders/orders.controller.ts. The query
--   builder's getMany is an argument, Listing.Contract has what it is relied on for (Ranking is
--   about the order of the rows), and Listing.Memory meets it.
--   Worker: src/orders/orders-worker.service.ts. handle, handle_happy_path, process_once (the
--   callback of datasource.transaction), process_order_message, handle_failed_processing and the
--   callback of setTimeout (retry). Worker.Startup is getConfig and onApplicationBootstrap, with
--   Utils for parseBoolean (src/common/utils.ts). Deduplication, Retries, Recovery and Settlement
--   state what it guarantees, with Attempts for a message that is delivered again and again, and
--   Fulfilment goes from a request to createOrder to the processed order. A worker's state is the
--   database, the channel and the scheduled callbacks.
--
--   Http: Http.Correlation is src/common/correlation-id.middleware.ts (use), Http.Filter is
--   src/common/http-exception.filter.ts (catch). Refusals goes from the handler of new orders to
--   what the client is told.
--   Auth: Auth.Users is src/users/users.service.ts and src/auth/password.service.ts, Auth.Service
--   src/auth/auth.service.ts, Auth.Guards the guards and decorators of src/auth with the order in
--   which src/app.module.ts applies them; Auth.Sessions relates them, and Auth.Handlers is
--   src/auth/auth.controller.ts and src/users/users.controller.ts. bcrypt, the JWT library and the
--   table of users are the records Accounts and Tokens, which Auth.Memory instantiates.
--
--   Products: src/products/products.controller.ts with its service, and src/debug/debug.controller.ts.
--
--   Migrations: src/migrations, one child for each, with its up and down as lists of the statements
--   that they run. SQL is the language of these files: Migrations.exec says what a statement does to
--   the enumerated types, the tables with their contents (Migrations.Catalog, column by column) and
--   the indexes, and with which of PostgreSQL's codes it fails; a migration that throws leaves
--   nothing, as its transaction is rolled back. History has the order of the migrations and the
--   databases between them, with arbitrary contents; Upgrade, Backfill, Failures and RoundTrip run
--   them. Entities is what the decorators of the entities describe, Agreement compares the two; the
--   direction of an index's column is not part of a decorator and is left out there.
--
--   Seed: src/seed/index.ts and src/seed/constants.ts. seed is ensure_initialized (the data source)
--   and run_seed, the transaction around seed_rows, whose blocks are ensure_user, ensure_products,
--   ensure_order and ensure_items. The repositories are the record Store; Seed.Contract has what
--   they are relied on for, which Seed.Memory meets. Repeated is about a database that has
--   everything, Ensured, Outcome and Sown about one that may not, Guarantees about the whole script.
--
-- Conventions and bounds. Identifiers (UUIDs) and moments are only compared, so they are numbers;
-- quantities and stock are integers. The clock is an argument. Concurrent transactions are ordered
-- by the locks of PostgreSQL: a transaction sees what was committed when it began, and its own
-- writes. The number of retries is a whole number, or none when WORKER_RETRIES is no number. The
-- life of a message (Worker.Attempts.attempts) runs on fuel, one unit for a delivery, and a theorem
-- says how many are enough.
--
-- Not modelled: logging, sleeping, the text of the queries that TypeORM sends, and the framework's
-- wiring.
pub mod Base
pub mod Errors
pub mod Exec
pub mod Schema
pub mod Database
pub mod UnitOfWork
pub mod Messages
pub mod RabbitMq
pub mod Orders
pub mod Migrations
pub mod Utils
pub mod Seed
pub mod Worker
pub mod Http
pub mod Auth
pub mod Products

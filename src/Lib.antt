-- ===== src/Lib.antt =====
-- The order service (src/order_service): an HTTP producer that keeps the lifecycle of orders and
-- publishes it to Kafka, and consumer services that fold the lifecycle into per-partition stores.
--
-- The parts and the files that model them:
--   Prelude, Dict        shared names, results, methods that mutate and may raise (`Action`), json
--                        values and bytes, Python's texts and dicts
--   Events               src/order_service/events.py: the event contract, its tables and validators
--   Config               src/order_service/config.py: the settings and what is derived from them
--   Producer.Orders      src/order_service/producer/orders.py: `OrderStore`; Interleaving is the
--                        step relation of requests that run in several threads
--   Producer.Kafka       src/order_service/producer/kafka_producer.py: publishing with a report
--   Producer.Routes      src/order_service/producer/routes.py: the handlers, over store and producer
--   Producer.App         src/order_service/producer/app.py: `lifespan` around the calls that are served,
--                        and what they do to the numbers of an order
--   Consumer.Broker      what a consumer process exchanges with Kafka: events, answers, exceptions
--   Consumer.Errors      src/order_service/consumer/errors.py: classification
--   Consumer.Dlq         src/order_service/consumer/dlq.py: headers, origin and `FailureRouter`
--   Consumer.State       src/order_service/consumer/state.py: the protocol `StateStore`, the row, and
--                        the two backends `MemoryStateStore` and `LocalStateStore`
--   Consumer.Transactions  src/order_service/consumer/transactions.py: `DirectCommitter` and
--                        `TransactionalCommitter` behind the protocol `CommitStrategy`
--   Consumer.Folding, Failures, Group, Runtime  src/order_service/consumer/runtime.py and failures.py:
--                        `apply_event`, the failure lever, the client configuration, and
--                        `ServiceConsumer` over any store and any commit strategy; Running is `run`,
--                        with the revocation of what is assigned when it closes the client
--   Consumer.Main        src/order_service/consumer/main.py: `main`, with the constructors it calls, in
--                        an environment `World` that is everything outside of the process
--   Consumer.Projection  the specification of the memory backend: what it holds after a run, as a
--                        function of what was polled
--   Consumer.RetryWorker  src/order_service/consumer/retry_worker.py: `RetryWorker`, with a child for
--                        handling, for waiting, for what is lost, for the count of attempts, and
--                        for its `run` and `main` in the same environment
--   Consumer.Services    src/order_service/consumer/inventory.py, notification.py, analytics.py, and the
--                        registry of main.py; the lines that a handler logs are events of the trace, and
--                        analytics' counter is what the trace shows to have been counted
--   Tools.DlqReplay      src/order_service/tools/dlq_replay.py: the snapshot, the loop, its end and `main`
--   Lifecycle            the routes of the producer and the consumers' fold together
--
-- How the parts interact. A route calls the order store and the producer in the order of the source;
-- its state is the pair of the orders and what the client accepted. A consumer process has one trace
-- of events, to which the store's changelog, the router and the committer append; what the broker
-- answers is a function of the trace so far, so that a theorem about every `Kafka` is about every
-- behaviour of the broker. `StateStore` and `CommitStrategy` are records of operations that the
-- runtime takes as parameters and the backends fill; `IsQuiet` is the law that a statement about the
-- runtime asks of a store: its calls neither commit nor seek.
--
-- Parameters, for code that is not in the repository: librdkafka's clients (`Client`, `Kafka`,
-- `Reader`), rocksdict and the file system (`Engine`, with its laws `IsEngine`), pydantic
-- (`Pydantic`), json (`JsonCodec`), float parsing and the ISO format of times (`IsoTime`).
--
-- Bounds and termination. Numbers are natural numbers or integers as in Python, without a width.
-- No function runs on fuel: a loop over what a client answers recurses on the list of its answers,
-- and an end of the answers before the loop is done is the code's own error for a stalled rebuild,
-- and for the replay tool a run that still polls.
-- A time is a count of milliseconds. A clock does not go back within a transaction.
--
-- Not modelled: log lines, except those of the services' handlers, and that forming one may raise;
-- the texts of most exceptions; client settings that are passed on unchanged; argument parsing;
-- FastAPI and uvicorn, where the calls of `Producer.App` come one after the other and those that
-- overlap are the interleavings of `Producer.Orders`; signal handlers, which end what is polled; a
-- due time without a time zone, which Python refuses to compare.
pub mod Prelude
pub mod Dict
pub mod Events
pub mod Config
pub mod Producer
pub mod Consumer
pub mod Tools
pub mod Lifecycle

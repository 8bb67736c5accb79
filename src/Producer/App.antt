-- ===== src/Producer/App.antt =====
-- src/order_service/producer/app.py: the application over the handlers of routes.py, with the start
-- and the stop of the producer (kafka_producer.py). uvicorn and FastAPI are left out: what the
-- application serves is a sequence of calls of its routes.
pub mod Numbers
mod Tests
use kafka_playgroud.Prelude.{
  ℕ, Bool, true, false, Option, none, some, List, [], ◌∷◌, String, if◌then◌else◌,
}
use kafka_playgroud.Producer.Kafka.{Wire}
use kafka_playgroud.Producer.Routes.{
  App, Platform, Request, CreateOrderRequest, PublishEventRequest, create_order, publish_event,
  delete_order, get_order,
}

-- The poll thread of `LifecycleEventProducer`: whether `_poll_thread` is one, and `_poll_stop`.
pub record PollThread : Type 0 where
  pub running : Bool
  pub stop_set : Bool

-- `LifecycleEventProducer.start`
unfoldable pub start : PollThread → PollThread
start p = if p.running then p else record { running = true; stop_set = false }

-- `LifecycleEventProducer.stop`, without its flush
unfoldable pub stop : PollThread → PollThread
stop p = record { running = false; stop_set = true }

-- One request that the router hands to a handler.
pub data Call : Type 0 where
  creation : Request → CreateOrderRequest → Call
  posting : Request → String → PublishEventRequest → Call
  deletion : String → Call
  reading : String → Call

-- What the process holds while it serves, and how many messages each flush of the client left.
pub record Server : Type 0 where
  pub app : App
  pub thread : PollThread
  pub flushes : List ℕ

module _ (pf : Platform) where
  -- what a call leaves of `app.state`, whatever it answers
  unfoldable pub serve : Call → App → App
  serve (creation req body) app = (create_order pf req body app).1
  serve (posting req order_id body) app = (publish_event pf req order_id body app).1
  serve (deletion order_id) app = (delete_order pf order_id app).1
  serve (reading order_id) app = (get_order pf order_id app).1

  unfoldable pub serve_all : List Call → App → App
  serve_all [] app = app
  serve_all (c ∷ cs) app = serve_all cs (serve c app)

  -- the producer and the store that `lifespan` makes
  abbrev pub opened : Server
  opened = record {
    app = record { orders = []; wire = [] };
    thread = start (record { running = false; stop_set = false });
    flushes = [];
  }

  -- `lifespan` around the calls that are served; `flush` is what the client's flush leaves
  unfoldable pub lifespan : (Wire → ℕ) → List Call → Server
  unfolding serve_all
  lifespan flush calls =
      let app = serve_all calls opened.app in
      record { app = app; thread = stop opened.thread; flushes = flush app.wire ∷ [] }

-- ===== src/Worker/Tests.antt =====
-- The worker at concrete inputs: an order to process, the same message again, and a message that
-- fails on every attempt.
use nodejs_pro_task.Base.{ℕ, ◌+◌, ◌≤◌, ◌≡◌, refl, arith, true, false, none, some, [], ◌∷◌}
use nodejs_pro_task.Errors.{ok}
use nodejs_pro_task.Schema.{Order, ProcessedMessage, created}
use nodejs_pro_task.Database.Memory.{Store, tables, memory, insert_processed, transaction}
use nodejs_pro_task.Database.Memory.Lawful.{memory-Laws}
use nodejs_pro_task.Database.Memory.Live.{memory-IsUp}
use nodejs_pro_task.Messages.{ProcessOrderMessage, Failure, new_message, json, invalid}
use nodejs_pro_task.RabbitMq.{ack, send, get_channel}
use nodejs_pro_task.RabbitMq.Deliveries.{on_message}
use nodejs_pro_task.RabbitMq.Wire.{Wire, wire, wire-Laws, wire-IsOpen}
use nodejs_pro_task.Database.Queries.{LoadedOrder}
use nodejs_pro_task.Orders.Samples.{
  alice_known, asks_two, shop, two_mice, no_keys, two_mice_possible,
}
use nodejs_pro_task.Worker.{
  Config, Worker, handler_name, process_order_message, process_once, handle_happy_path,
  handle_failed_processing, handle, retry, deliver, stops_on, is_last,
}
use nodejs_pro_task.Worker.Steps.{Acked}
use nodejs_pro_task.Worker.Effects.{Did}
use nodejs_pro_task.Worker.Deduplication.{
  Processed, handle_repeated, handle_repeated-Acked, handle_new, handle_once_only,
}
use nodejs_pro_task.Worker.Settlement.{Settled, deliver-Settled}
use nodejs_pro_task.Worker.Attempts.{attempts, history, tags_from}
use nodejs_pro_task.Worker.Retries.{attempts_end}
use nodejs_pro_task.Worker.Fulfilment.{Processes, deliver-create_order}
use nodejs_pro_task.Worker.Recovery.{Recovered, attempts_recover}

abbrev three : Config
three = record { enable_worker = true; max_retries = some 3 }

abbrev waiting : Order
waiting = record {
  id = 0;
  user_id = 1;
  status = created;
  idempotency_key = 99;
  created_at = 4;
  updated_at = 4;
  processed_at = none;
}

abbrev fresh : Store
fresh = record {
  clock = 5;
  users = [];
  products = [];
  rows = record { order = waiting; items = [] } ∷ [];
  processed = [];
}

abbrev seen : ProcessedMessage
seen = record { id = 0; message_id = 0; handler = handler_name; processed_at = 5 }

abbrev open_wire : Wire
open_wire = record { published = []; acked = []; rejected = [] }

abbrev idle : Worker memory wire
idle = record { db = fresh; rabbitmq = some open_wire; timers = [] }

abbrev done_once : Worker memory wire
done_once = record {
  db = record fresh { processed = seen ∷ [] };
  rabbitmq = some open_wire;
  timers = [];
}

abbrev broken : Failure
broken = record { reason = "boom"; stop_on_attempt = some 7 }

abbrev failing : ProcessOrderMessage
failing = record (new_message 7 0 0) { simulate_failure = some broken }

-- With three attempts a message that fails for good is posted twice again.
dead_letters :
    (attempts memory wire 3 three 9 failing 1 idle).rabbitmq
    ≡ some (record {
      published =
          ("orders.process", json (record failing { attempt = 2 }))
          ∷ ("orders.process", json (record failing { attempt = 3 }))
          ∷ ("orders.dlq", json (record failing { attempt = 3 }))
          ∷ [];
      acked = 1 ∷ 2 ∷ 3 ∷ [];
      rejected = [];
    })
unfolding attempts deliver on_message handle handle_happy_path handle_failed_processing retry
    process_once process_order_message insert_processed transaction stops_on is_last send ack
    get_channel
dead_letters = refl

handle_repeated_example :
    tables (handle memory wire three 9 (new_message 7 0 0) 1 done_once).1.db ≡ tables done_once.db
handle_repeated_example =
    handle_repeated memory wire memory-Laws three 9 (new_message 7 0 0) 1 done_once (λ e. cc)

handle_repeated-Acked_example :
    let (r, w') = handle memory wire three 9 (new_message 7 0 0) 1 done_once in
    (r ≡ ok tt) × Acked memory wire 1 done_once w'
handle_repeated-Acked_example =
    handle_repeated-Acked memory wire memory-Laws three 9 (new_message 7 0 0) 1 done_once open_wire
      memory-IsUp wire-Laws wire-IsOpen refl (λ e. cc)

handle_new_example :
    let (r, w') = handle memory wire three 9 (new_message 7 0 0) 1 idle in
    (r ≡ ok tt)
    × Acked memory wire 1 idle w'
    × Processed memory (tables fresh) (tables w'.db) (new_message 7 0 0) 9
handle_new_example =
    handle_new memory wire memory-Laws three 9 (new_message 7 0 0) 1 idle open_wire memory-IsUp
      wire-Laws wire-IsOpen refl refl refl

handle_once_only_example :
    let w' = (handle memory wire three 9 (new_message 7 0 0) 1 idle).1 in
    Processed memory
      (tables fresh)
      (tables (handle memory wire three 12 (new_message 11 0 0) 2 w').1.db)
      (new_message 7 0 0)
      9
handle_once_only_example =
    handle_once_only memory wire memory-Laws three 9 (new_message 7 0 0) 1 idle three 12 2
      (new_message 11 0 0) open_wire memory-IsUp wire-Laws wire-IsOpen refl refl refl refl

broken_stays : (a : ℕ) → 1 ≤ a → a ≤ 1 + 2 → stops_on broken a ≡ false
unfolding stops_on
broken_stays a from to = ground arith

attempts_end_example :
    let w' = attempts memory wire 3 three 9 failing 1 idle in
    (w'.timers ≡ []) × Did memory wire (history 2 failing) (tags_from 2 1) idle w'
attempts_end_example =
    attempts_end memory wire memory-Laws memory-IsUp wire-Laws wire-IsOpen three 9 broken 2 3
      failing 1 idle open_wire (omega arith) refl broken_stays refl refl refl refl

-- A failure that stops on the second attempt.
abbrev flaky : Failure
flaky = record { reason = "boom"; stop_on_attempt = some 2 }

abbrev recovering : ProcessOrderMessage
recovering = record (new_message 7 0 0) { simulate_failure = some flaky }

attempts_recover_example :
    let w' = attempts memory wire 3 three 9 recovering 1 idle in
    (w'.timers ≡ [])
    × Recovered memory wire memory-Laws memory-IsUp wire-Laws wire-IsOpen three 9 flaky 1 recovering
        1 idle w'
attempts_recover_example =
    attempts_recover memory wire memory-Laws memory-IsUp wire-Laws wire-IsOpen three 9 flaky 1 3
      recovering 1 idle open_wire (omega arith) refl (λ m at. ground arith) refl refl refl refl

deliver-Settled_example :
    Settled memory wire memory-Laws wire-Laws wire-IsOpen three 9 4 idle open_wire refl invalid
      (deliver memory wire three 9 (record { tag = 4; content = invalid }) idle)
deliver-Settled_example =
    deliver-Settled memory wire memory-Laws wire-Laws wire-IsOpen three 9 4 idle open_wire refl
      invalid

-- An order of two mice, and its message as the first delivery.
deliver-create_order_example :
    (o : LoadedOrder) × Processes memory wire memory-Laws memory-IsUp wire-Laws wire-IsOpen 7 9 1 99
      two_mice three 1 [] shop o
deliver-create_order_example =
    deliver-create_order memory wire memory-Laws memory-IsUp wire-Laws wire-IsOpen 7 9 1 99 two_mice
      three 1 [] shop open_wire refl refl refl asks_two no_keys alice_known two_mice_possible
      (λ id h. refl)

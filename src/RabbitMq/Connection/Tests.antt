-- ===== src/RabbitMq/Connection/Tests.antt =====
-- The service on a broker in memory, which counts nothing but the queues and the consumers it has, and
-- whose channels are closing already when they are closed.
use nodejs_pro_task.Base.{
  ℕ, String, ◌≡◌, refl, Bool, true, false, ◌||◌, Option, none, some, List, [], ◌∷◌, str_eq, arith,
  eq_iff, if◌then◌else◌,
}
use nodejs_pro_task.Errors.{Exception, plain, ok, err}
use nodejs_pro_task.RabbitMq.Connection.{
  Environment, Library, Session, is_closing, current_channel, on_module_init, consume,
  on_module_destroy,
}
use nodejs_pro_task.RabbitMq.Connection.Lifecycle.{
  Declares, Closes, on_module_init-ready, on_module_destroy-clears,
}
use nodejs_pro_task.Utils.{truthy_booleans, to_lower}
use nodejs_pro_task.Utils.Spelling.{Spells}
use nodejs_pro_task.Worker.Startup.{on_application_bootstrap, on_application_bootstrap-consumes}

record Broker : Type 0 where
  queues : List String
  consumed : List String

abbrev library : Library
library = record {
  World = Broker;
  ConnectionRef = ℕ;
  ChannelRef = ℕ;
  connect = λ url w. (ok 1, w);
  create_channel = λ k w. (ok 2, w);
  prefetch = λ n c w. (ok tt, w);
  assert_queue = λ q durable c w. (ok tt, record w { queues = q ∷ w.queues });
  consume = λ q no_ack c w. (ok tt, record w { consumed = q ∷ w.consumed });
  close_channel = λ c w. (err (plain "Channel closing"), w);
  close_connection = λ k w. (ok tt, w);
}

abbrev fresh_session : Session library
fresh_session = record {
  world = record { queues = []; consumed = [] };
  connection = none;
  channel = none;
}

abbrev among : List String → String → Bool
among [] q = false
among (p ∷ ps) q = str_eq p q || among ps q

abbrev declared : Broker → String → Bool
declared w q = among w.queues q

library-Declares : Declares library declared
library-Declares = record {
  assert_lem = λ queue c w w' h.
      let e : (queue ∷ w.queues) ≡ w'.queues = λ i. (h i).1.queues in
      ground (arith, eq_iff queue queue);
  assert_keeps = λ queue other c w w' h k.
      let e : (queue ∷ w.queues) ≡ w'.queues = λ i. (h i).1.queues in ground arith;
}

abbrev env : Environment
env key = if str_eq key "WORKER_ENABLE" then some "Yes" else some "amqp://broker"

abbrev number : String → Option ℕ
number s = if str_eq s "10" then some 10 else none

-- The session after `onModuleInit`.
abbrev ready : Session library
ready = record {
  world = record { queues = "orders.dlq" ∷ "orders.process" ∷ []; consumed = [] };
  connection = some 1;
  channel = some 2;
}

initialised : on_module_init library number env fresh_session ≡ (ok tt, ready)
unfolding on_module_init
initialised = refl

on_module_init-ready_example :
    (c : ℕ) × (current_channel library ready ≡ (ok c, ready))
    × (declared ready.world "orders.process" ≡ true)
    × (declared ready.world "orders.dlq" ≡ true)
on_module_init-ready_example =
    on_module_init-ready library declared library-Declares number env fresh_session ready
      initialised

library-Closes : Closes library
library-Closes k w e h = absurd (ground arith)

on_module_destroy-clears_example :
    let (r, s') = on_module_destroy library ready in
    (s'.connection ≡ none)
    × (current_channel library s' ≡ (err (plain "Channel is not created!"), s'))
    × ((e : Exception) → r ≡ err e → is_closing e ≡ false)
on_module_destroy-clears_example = on_module_destroy-clears library library-Closes ready

destroyed : (on_module_destroy library ready).0 ≡ ok tt
unfolding on_module_destroy is_closing
destroyed = refl

yes_is_true : Spells truthy_booleans "Yes"
unfolding to_lower
yes_is_true = record {
  before = [];
  word = 89 ∷ 101 ∷ 115 ∷ [];
  after = [];
  spaces_before = refl;
  spaces_after = refl;
  is_word = refl;
  made_of = refl;
}

on_application_bootstrap-consumes_example :
    on_application_bootstrap library number env ready ≡ consume library "orders.process" ready
on_application_bootstrap-consumes_example =
    on_application_bootstrap-consumes library number env "Yes" true ready refl yes_is_true

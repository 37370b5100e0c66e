-- ===== src/RabbitMq/Connection.antt =====
-- src/rabbit-mq/rabbit-mq.service.ts: the connection and the channel of the service, from
-- `onModuleInit` to `onModuleDestroy`, and the registration of a consumer. The calls of amqplib around
-- a connection are the record `Library`; what goes through a channel is in the parent.
pub mod Lifecycle
mod Tests
use Prim.Native.String.{◌∷◌, []}
use Prim.Native.Char.{code}
use nodejs_pro_task.Base.{
  ℕ, String, ◌≡◌, Bool, true, false, ◌&&◌, ◌||◌, not, Option, none, some, List, ◌==◌, if◌then◌else◌,
}
use nodejs_pro_task.Errors.{
  Exception, domain, http, driver, plain, suppressed, message, Result, ok, err,
}
use nodejs_pro_task.Exec.{Exec, pure, raise, lift, ◌>>=◌, ◌>>◌}
use nodejs_pro_task.Http.Correlation.{truthy}

abbrev starts_with : String → String → Bool
starts_with [] s = true
starts_with (c ∷ p) [] = false
starts_with (c ∷ p) (d ∷ s) = (code c == code d) && starts_with p s

-- `String.prototype.includes`
abbrev pub includes : String → String → Bool
includes [] p = starts_with p []
includes (c ∷ s) p = starts_with p (c ∷ s) || includes s p

-- `error instanceof Error && error.message.includes("closing")`. amqplib throws plain errors.
unfoldable pub is_closing : Exception → Bool
unfolding message
is_closing (plain m) = includes m "closing"
is_closing (domain e) = includes (message e) "closing"
is_closing _ = false

-- The environment, as `ConfigService.get` reads it.
abbrev pub Environment : Type 0
Environment = String → Option String

-- `value || text`
abbrev pub or_text : Option String → String → String
or_text none t = t
or_text (some s) t = if truthy s then s else t

pub record BrokerConfig : Type 0 where
  pub url : String
  -- None is NaN.
  pub prefetch : Option ℕ

-- `number` is `Number`, of a text that denotes a natural number or none.
unfoldable pub get_broker_config : (String → Option ℕ) → Environment → Result BrokerConfig
get_broker_config number env = elim (env "RABBITMQ_URL") [
  | none ↦ err (plain "Configuration key \"RABBITMQ_URL\" does not exist")
  | some url ↦ ok (record { url = url; prefetch = number (or_text (env "RABBITMQ_PREFETCH") "10") })
]

pub record Library : Type 1 where
  -- The broker and the connections to it.
  pub World : Type 0
  pub ConnectionRef : Type 0
  pub ChannelRef : Type 0
  pub connect : String → Exec World ConnectionRef
  pub create_channel : ConnectionRef → Exec World ChannelRef
  pub prefetch : Option ℕ → ChannelRef → Exec World (Unit {0})
  -- The queue, and whether it is durable.
  pub assert_queue : String → Bool → ChannelRef → Exec World (Unit {0})
  -- The queue, and `noAck`; the callback is in Deliveries.
  pub consume : String → Bool → ChannelRef → Exec World (Unit {0})
  pub close_channel : ChannelRef → Exec World (Unit {0})
  pub close_connection : ConnectionRef → Exec World (Unit {0})

module _ (L : Library) where
  pub record Session : Type 0 where
    pub world : L.World
    pub connection : Option L.ConnectionRef
    pub channel : Option L.ChannelRef

  abbrev pub outside : {A : Type 0} → Exec L.World A → Exec Session A
  outside m s = let (r, w) = m s.world in (r, record s { world = w })

  abbrev pub set_connection : Option L.ConnectionRef → Exec Session (Unit {0})
  set_connection k s = (ok tt, record s { connection = k })

  abbrev pub set_channel : Option L.ChannelRef → Exec Session (Unit {0})
  set_channel c s = (ok tt, record s { channel = c })

  unfoldable pub current_channel : Exec Session L.ChannelRef
  current_channel s = elim s.channel [
    | none ↦ (err (plain "Channel is not created!"), s)
    | some c ↦ (ok c, s)
  ]

  unfoldable pub assert_infra : Exec Session (Unit {0})
  unfolding current_channel
  assert_infra = do
    channel ← current_channel
    outside (L.assert_queue "orders.process" true channel)
    outside (L.assert_queue "orders.dlq" true channel)

  unfoldable pub on_module_init : (String → Option ℕ) → Environment → Exec Session (Unit {0})
  unfolding get_broker_config assert_infra
  on_module_init number env = do
    config ← lift (get_broker_config number env)
    k ← outside (L.connect config.url)
    set_connection (some k)
    c ← outside (L.create_channel k)
    set_channel (some c)
    outside (L.prefetch config.prefetch c)
    assert_infra

  -- The registration that `consume` makes, on the service's channel.
  unfoldable pub consume : String → Exec Session (Unit {0})
  unfolding current_channel
  consume queue = do channel ← current_channel; outside (L.consume queue false channel)

  -- `await this.channel?.close()`, whose error is swallowed while the channel is closing.
  unfoldable pub close_channel : Exec Session (Unit {0})
  close_channel s = elim s.channel [
    | none ↦ (ok tt, s)
    | some c ↦
        let (r, s') = outside (L.close_channel c) s in
        elim r [ ok _ ↦ (ok tt, s') | err e ↦ if is_closing e then (ok tt, s') else (err e, s') ]
  ]

  -- The body of `finally`.
  unfoldable pub close_connection : Exec Session (Unit {0})
  close_connection s = elim s.connection [
    | none ↦ (ok tt, record s { channel = none; connection = none })
    | some k ↦
        let (r, s') = outside (L.close_connection k) s in
        let cleared : Session = record s' { channel = none; connection = none } in
        elim r [
          | ok _ ↦ (ok tt, cleared)
          | err e ↦ if is_closing e then (ok tt, cleared) else (err e, s')
        ]
  ]

  -- An error of `finally` replaces the one before it.
  unfoldable pub on_module_destroy : Exec Session (Unit {0})
  unfolding close_channel close_connection
  on_module_destroy s =
      let (r, s') = close_channel s in
      let (q, s'') = close_connection s' in elim q [ ok _ ↦ (r, s'') | err e ↦ (err e, s'') ]

-- ===== src/RabbitMq/Connection/Lifecycle.antt =====
-- What holds of the service (src/rabbit-mq/rabbit-mq.service.ts) after it was initialised and after it
-- was destroyed.
use nodejs_pro_task.Base.{
  ℕ, String, ◌≡◌, arith, inl, inr, Option-cases, Bool, true, false, Option, none, some,
}
use nodejs_pro_task.Errors.{Exception, plain, ok, err, Result-cases}
use nodejs_pro_task.Exec.{lift, bind_ok}
use nodejs_pro_task.RabbitMq.Connection.{
  Environment, Library, Session, outside, is_closing, get_broker_config, current_channel,
  assert_infra, on_module_init, close_channel, close_connection, on_module_destroy,
}

module _ (L : Library) where
  open L use {World}

  -- What is relied on: a queue that was asserted is there, and stays.
  pub record Declares (declared : World → String → Bool) : Type 0 where
    pub assert_lem :
        (queue : String) (c : L.ChannelRef) (w w' : World)
        → L.assert_queue queue true c w ≡ (ok tt, w')
        → declared w' queue ≡ true
    pub assert_keeps :
        (queue other : String) (c : L.ChannelRef) (w w' : World)
        → L.assert_queue queue true c w ≡ (ok tt, w')
        → declared w other ≡ true
        → declared w' other ≡ true

  module _ (declared : World → String → Bool) (laws : Declares declared) where
    asserted :
        (queue : String) (c : L.ChannelRef) (s s' : Session L)
        → outside L (L.assert_queue queue true c) s ≡ (ok tt, s')
        → (s.channel ≡ s'.channel)
          × (declared s'.world queue ≡ true)
          × ((other : String) → declared s.world other ≡ true → declared s'.world other ≡ true)
    asserted queue c s s' h =
        let call : L.assert_queue queue true c s.world ≡ (ok tt, s'.world) =
          λ i. ((h i).0, (h i).1.world) in
        (
          (λ i. (h i).1.channel),
          laws.assert_lem queue c s.world s'.world call,
          λ other. laws.assert_keeps queue other c s.world s'.world call,
        )

    has_channel :
        (s s' : Session L) (c : L.ChannelRef)
        → current_channel L s ≡ (ok c, s')
        → (s.channel ≡ some c) × (s ≡ s')
    unfolding current_channel
    has_channel s s' c h = elim (Option-cases s.channel) [
      | inl none_there ↦ absurd (ground arith)
      | inr (x, there) ↦ (ground arith, ground arith)
    ]

    infra-declared :
        (s s' : Session L)
        → assert_infra L s ≡ (ok tt, s')
        → (c : L.ChannelRef) × (s'.channel ≡ some c)
          × (declared s'.world "orders.process" ≡ true)
          × (declared s'.world "orders.dlq" ≡ true)
    unfolding assert_infra
    infra-declared s s' h =
        let (c, s₀, e, h₀) = bind_ok (current_channel L) _ s s' tt h in
        let (_, s₁, e₁, h₁) =
          bind_ok (outside L (L.assert_queue "orders.process" true c)) _ s₀ s' tt h₀ in
        let (there, same) = has_channel s s₀ c e in
        let (kept, process, _) = asserted "orders.process" c s₀ s₁ e₁ in
        let (kept', dlq, keeps) = asserted "orders.dlq" c s₁ s' h₁ in
        (c, ground arith, keeps "orders.process" process, dlq)

    -- If the initialisation of the service returns, the service has a channel, and both queues are
    -- declared at the broker, when a queue that was asserted is there and stays.
    pub on_module_init-ready :
        (number : String → Option ℕ) (env : Environment) (s s' : Session L)
        → on_module_init L number env s ≡ (ok tt, s')
        → (c : L.ChannelRef) × (current_channel L s' ≡ (ok c, s'))
          × (declared s'.world "orders.process" ≡ true)
          × (declared s'.world "orders.dlq" ≡ true)
    unfolding on_module_init current_channel
    on_module_init-ready number env s s' h =
        let (config, s₁, _, h₁) = bind_ok (lift (get_broker_config number env)) _ s s' tt h in
        let (k, s₂, _, h₂) = bind_ok (outside L (L.connect config.url)) _ s₁ s' tt h₁ in
        let (c, s₃, _, h₃) =
          bind_ok (outside L (L.create_channel k)) _ (record s₂ { connection = some k }) s' tt h₂ in
        let (_, s₄, _, h₄) =
          bind_ok (outside L (L.prefetch config.prefetch c)) _ (record s₃ { channel = some c }) s'
            tt h₃ in
        let (d, there, process, dlq) = infra-declared s₄ s' h₄ in (d, ground arith, process, dlq)

  -- The connection closes, or is closing already.
  abbrev pub Closes : Type 0
  Closes =
      (k : L.ConnectionRef) (w : World) (e : Exception)
      → (L.close_connection k w).0 ≡ err e
      → is_closing e ≡ true

  close_connection-clears :
      Closes
      → (s : Session L)
      → let (r, s') = close_connection L s in
        (r ≡ ok tt) × (s'.connection ≡ none) × (s'.channel ≡ none)
  unfolding close_connection
  close_connection-clears calm s = elim (Option-cases s.connection) [
    | inl absent ↦ (ground arith, ground arith, ground arith)
    | inr (k, there) ↦ elim (Result-cases (L.close_connection k s.world).0) [
      | inl (_, closed) ↦ (ground arith, ground arith, ground arith)
      | inr (e, fails) ↦
          let closing = calm k s.world e fails in (ground arith, ground arith, ground arith)
    ]
  ]

  close_channel_error :
      (s : Session L) (e : Exception) → (close_channel L s).0 ≡ err e → is_closing e ≡ false
  unfolding close_channel
  close_channel_error s e h = ground arith

  -- When the close of a connection fails only because it is closing already, the destruction of
  -- the service clears its connection and its channel, however the close of the channel ends, so
  -- that asking for the channel throws; and it never throws an error that says that something is
  -- closing.
  pub on_module_destroy-clears :
      Closes
      → (s : Session L)
      → let (r, s') = on_module_destroy L s in
        (s'.connection ≡ none)
        × (current_channel L s' ≡ (err (plain "Channel is not created!"), s'))
        × ((e : Exception) → r ≡ err e → is_closing e ≡ false)
  unfolding on_module_destroy current_channel
  on_module_destroy-clears closes s =
      let (returns, no_connection, no_channel) =
        close_connection-clears closes (close_channel L s).1 in
      (ground arith, ground arith, λ e h. close_channel_error s e (ground arith))

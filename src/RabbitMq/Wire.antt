-- ===== src/RabbitMq/Wire.antt =====
-- A channel that records what went through it, which shows that amqplib's contract can be met.
use nodejs_pro_task.Base.{ℕ, String, refl, Bool, true, List, [], ◌∷◌, ◌++◌, sym}
use nodejs_pro_task.Errors.{ok, ok_injective}
use nodejs_pro_task.Messages.{Content}
use nodejs_pro_task.RabbitMq
use nodejs_pro_task.RabbitMq.{Amqp}

pub record Wire : Type 0 where
  pub published : List (String × Content)
  pub acked : List ℕ
  pub rejected : List (ℕ × Bool)

abbrev pub wire : Amqp
wire = record {
  Channel = Wire;
  published = λ c. c.published;
  acked = λ c. c.acked;
  rejected = λ c. c.rejected;
  send_to_queue = λ queue content options c.
      ok (true, record c { published = c.published ++ (queue, content) ∷ [] });
  ack = λ tag c. ok (record c { acked = c.acked ++ tag ∷ [] });
  reject = λ tag requeue c. ok (record c { rejected = c.rejected ++ (tag, requeue) ∷ [] });
}

pub wire-Laws : RabbitMq.Laws wire
wire-Laws = record {
  send_lem = λ queue content options c c' b h.
      let e = ok_injective h in
      (λ i. (sym e i).1.published, λ i. (sym e i).1.acked, λ i. (sym e i).1.rejected);
  ack_lem = λ tag c c' h.
      let e = ok_injective h in
      (λ i. (sym e i).acked, λ i. (sym e i).published, λ i. (sym e i).rejected);
  reject_lem = λ tag requeue c c' h.
      let e = ok_injective h in
      (λ i. (sym e i).rejected, λ i. (sym e i).published, λ i. (sym e i).acked);
}

pub wire-IsOpen : RabbitMq.IsOpen wire
wire-IsOpen = record {
  sends = λ queue content options c. (_, refl);
  acks = λ tag c. (_, refl);
  rejects = λ tag requeue c. (_, refl);
}

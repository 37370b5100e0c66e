-- ===== src/Orders/Service/Stock.antt =====
-- No product is sold beyond its stock, by any sequence of requests (src/orders/orders.service.ts).
use nodejs_pro_task.Base.{
  ℕ, ◌≡◌, sym, ap, subst, ◌∙◌, inl, inr, Option-cases, true, some, List, arith,
}
use nodejs_pro_task.Base.Int.{ℤ, pos, ◌≤ℤ◌, ◌-ℤ◌, int_laws}
use nodejs_pro_task.Schema.{Order, Product, Tables}
use nodejs_pro_task.Database.{Database}
use nodejs_pro_task.Database.Contract.{Laws}
use nodejs_pro_task.RabbitMq.{Amqp}
use nodejs_pro_task.Orders.Service.{World, create_order}
use nodejs_pro_task.Orders.Service.Reservation.{OrderItemDto, all_positive, asked_qty}
use nodejs_pro_task.Orders.Service.Placement.{place, CanPlace, sold, left_of}
use nodejs_pro_task.Orders.Service.Guarantees.{create_order_all_or_nothing}

-- No stock is below zero.
abbrev pub InStock : Tables → Type 0
InStock t = (j : ℕ) (p : Product) → t.products j ≡ some p → pos 0 ≤ℤ p.stock

stock_left : (q s : ℤ) → q ≤ℤ s → pos 0 ≤ℤ (s -ℤ q)
stock_left q s h = grind (arith, int_laws)

place-InStock :
    (o : Order) (asked : List OrderItemDto) (t : Tables)
    → InStock t
    → CanPlace asked t
    → InStock (place o asked t)
place-InStock o asked t held can j p h = elim (Option-cases (asked_qty j asked)) [
  | inl e ↦ held j p (sym (ap (λ q. left_of o q (t.products j)) e) ∙ h)
  | inr (q, e) ↦
      let (old, f, enough) = can j q e in
      let left : some (sold o.created_at q old) ≡ some p = sym ((λ i. left_of o (e i) (f i))) ∙ h in
      let same : sold o.created_at q old ≡ p = cc in
      subst (λ (x : Product). pos 0 ≤ℤ x.stock) same (stock_left q old.stock enough)
]

module _ (D : Database) (A : Amqp) where
  -- The requests for orders that the validation lets through, one after the other.
  pub data Requests : World D A → World D A → Type 0 where
    done : {w : World D A} → Requests w w
    request :
        (moment user key : ℕ) (asked : List OrderItemDto) {w w' : World D A}
        → all_positive asked ≡ true
        → Requests (create_order D A moment user asked key w).1 w'
        → Requests w w'

  one_request :
      (laws : Laws D) (moment user key : ℕ) (asked : List OrderItemDto) (w : World D A)
      → all_positive asked ≡ true
      → InStock (D.view w.db)
      → InStock (D.view (create_order D A moment user asked key w).1.db)
  one_request laws moment user key asked w v held =
      elim (create_order_all_or_nothing D A laws moment user key asked w v) [
        | inl same ↦ subst (λ (x : World D A). InStock (D.view x.db)) (sym same) held
        | inr (id, p) ↦
            subst InStock (sym p.placed) (place-InStock p.row asked (D.view w.db) held p.possible)
      ]

  -- However many requests there are and however each of them ends, if no product's stock is below zero
  -- before them, none is afterwards.
  pub Requests-InStock :
      (laws : Laws D) (w w' : World D A)
      → Requests w w'
      → InStock (D.view w.db)
      → InStock (D.view w'.db)
  Requests-InStock laws w w' done held = held
  Requests-InStock laws w w' (request moment user key asked v more) held =
      Requests-InStock laws _ w' more (one_request laws moment user key asked w v held)

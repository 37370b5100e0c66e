-- ===== src/Orders/Service/Possible.antt =====
-- When `createOrder` returns: on a database that is up, with an open channel, every order that can be
-- placed is placed (src/orders/orders.service.ts).
use nodejs_pro_task.Base.{
  ℕ, ◌≡◌, refl, ap, subst, ◌∙◌, inl, inr, Bool-cases, Option-cases, true, false, none, some, List,
  [], ◌∷◌, length, ◌==◌, ==-refl, eq_of_==, contains, distinct, Within, Within-length, length-map,
  arith, if◌then◌else◌,
}
use nodejs_pro_task.Base.Int.{ℤ, ltb_ℤ, ◌≤ℤ◌, ◌-ℤ◌}
use nodejs_pro_task.Errors.{ok}
use nodejs_pro_task.Schema.{Product, Tables}
use nodejs_pro_task.Database.Queries.{NewItem, product_for}
use nodejs_pro_task.Orders.Service.Reservation.{OrderItemDto, asked_qty, reserve}
use nodejs_pro_task.Orders.Service.Reserved.{sold_row, ids_of, asked_qty-none}
use nodejs_pro_task.Orders.Service.Placement.{CanPlace}
use nodejs_pro_task.Orders.Service.Refinement.{keys, product_for_of_contains}

pub contains_of_product_for :
    (j : ℕ) (ps : List Product) (p : Product)
    → product_for j ps ≡ some p
    → (contains (keys ps) j ≡ true) × (p.id ≡ j)
contains_of_product_for j [] p h = absurd (ground arith)
contains_of_product_for j (x ∷ ps) p h = elim (Bool-cases (x.id == j)) [
  | inl hit ↦
      let same : x ≡ p = ground arith in
      (ground arith, subst (λ (y : Product). y.id ≡ j) same (eq_of_== x.id j hit))
  | inr miss ↦ let (e, f) = contains_of_product_for j ps p (ground arith) in (ground arith, f)
]

-- The loop goes through when every product was asked for and has enough.
pub reserve_possible :
    (order_id : ℕ) (asked : List OrderItemDto) (ps : List Product)
    → distinct (keys ps) ≡ true
    → ((j : ℕ) (p : Product)
        → product_for j ps ≡ some p
        → (q : ℤ) × (asked_qty p.id asked ≡ some q) × (q ≤ℤ p.stock))
    → (rows : List NewItem) × (left : List Product) × (reserve order_id asked ps ≡ ok (rows, left))
unfolding reserve
reserve_possible order_id asked [] d each = ([], [], refl)
reserve_possible order_id asked (p ∷ ps) d each =
    let (q, e, enough) = each p.id p (ground (arith, ==-refl p.id)) in
    let (rows, left, f) =
      reserve_possible order_id asked ps (ground arith)
        (λ j x h. let (held, _) = contains_of_product_for j ps x h in each j x (ground arith)) in
    let fits : ltb_ℤ p.stock q ≡ false = ground arith in
    (sold_row order_id p q ∷ rows, record p { stock = p.stock -ℤ q } ∷ left, ground arith)

-- The facts about one run over the locked products of a request that can be placed.
module _ (t : Tables) (asked : List OrderItemDto) (ps : List Product)
    (key : (j : ℕ) (p : Product) → t.products j ≡ some p → p.id ≡ j)
    (locked : (j : ℕ)
      → product_for j ps ≡ (if contains (ids_of asked) j then t.products j else none))
    (unique : distinct (keys ps) ≡ true) (can : CanPlace asked t) where
  asked_for : (j : ℕ) → contains (ids_of asked) j ≡ true → (q : ℤ) × (asked_qty j asked ≡ some q)
  asked_for j h = elim (Option-cases (asked_qty j asked)) [
    | inl e ↦ let no = asked_qty-none j asked e in absurd (ground arith)
    | inr found ↦ found
  ]

  pub all_enough :
      (j : ℕ) (p : Product)
      → product_for j ps ≡ some p
      → (q : ℤ) × (asked_qty p.id asked ≡ some q) × (q ≤ℤ p.stock)
  all_enough j p h =
      let (_, same) = contains_of_product_for j ps p h in
      elim (Bool-cases (contains (ids_of asked) j)) [
        | inr out ↦ absurd (ground (arith, locked j))
        | inl within ↦
            let stored : t.products j ≡ some p = ground (arith, locked j) in
            let (q, e) = asked_for j within in
            let (p', f, enough) = can j q e in
            let known : p' ≡ p = ground arith in
            (
              q,
              ap (λ i. asked_qty i asked) same ∙ e,
              subst (λ (x : Product). q ≤ℤ x.stock) known enough,
            )
      ]

  pub all_counted : distinct (ids_of asked) ≡ true → (length ps == length asked) ≡ true
  all_counted d =
      let most = Within-length (ids_of asked) (keys ps) d found in
      let least = Within-length (keys ps) (ids_of asked) unique held in
      ground (
        arith,
        length-map (λ (p : Product). p.id) ps,
        length-map (λ (i : OrderItemDto). i.id) asked,
      )
    where
      found : Within (ids_of asked) (keys ps)
      found j h =
          let (q, e) = asked_for j h in
          let (p, f, _) = can j q e in (contains_of_product_for j ps p (ground (arith, locked j))).0

      held : Within (keys ps) (ids_of asked)
      held j h =
          let (p, e) = product_for_of_contains j ps h in
          elim (Bool-cases (contains (ids_of asked) j)) [
            | inl within ↦ within
            | inr out ↦ absurd (ground (arith, locked j))
          ]

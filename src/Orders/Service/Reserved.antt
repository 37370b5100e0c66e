-- ===== src/Orders/Service/Reserved.antt =====
-- What the loop of `createOrder` has computed when it ends without an error: which rows it makes and
-- what is left of each product.
use nodejs_pro_task.Base.{
  ℕ, ◌≡◌, refl, inl, inr, true, false, Option, none, some, List, [], ◌∷◌, map, contains, ◌==◌,
  if◌then◌else◌, Bool-cases, Option-cases, arith, ◌≢◌,
}
use nodejs_pro_task.Base.Int.{ℤ, ◌-ℤ◌, ◌≤ℤ◌, ltb_ℤ}
use nodejs_pro_task.Errors.{ok, Result-cases}
use nodejs_pro_task.Schema.{Product}
use nodejs_pro_task.Database.Queries.{NewItem, product_for, new_item_for}
use nodejs_pro_task.Orders.Service.Reservation.{OrderItemDto, asked_qty, reserve}

abbrev pub ids_of : List OrderItemDto → List ℕ
ids_of = map (λ i. i.id)

pub ids_of-some : (asked : List OrderItemDto) → asked ≢ [] → ids_of asked ≢ []
ids_of-some [] some_items = absurd (some_items refl)
ids_of-some (i ∷ is) some_items = λ h. cc

-- A quantity is found exactly for the identifiers that the request lists.
pub asked_qty-contains :
    (id : ℕ) (items : List OrderItemDto) (q : ℤ)
    → asked_qty id items ≡ some q
    → contains (ids_of items) id ≡ true
unfolding asked_qty
asked_qty-contains id [] q h = ground arith
asked_qty-contains id (i ∷ is) q h = elim (Option-cases (asked_qty id is)) [
  | inl e ↦ ground arith
  | inr (later, e) ↦ ground (arith, asked_qty-contains id is later e)
]

pub asked_qty-none :
    (id : ℕ) (items : List OrderItemDto)
    → asked_qty id items ≡ none
    → contains (ids_of items) id ≡ false
unfolding asked_qty
asked_qty-none id [] h = refl
asked_qty-none id (i ∷ is) h = ground (arith, asked_qty-none id is)

abbrev pub sold_row : ℕ → Product → ℤ → NewItem
sold_row order_id p q = record {
  order_id = order_id;
  product_id = p.id;
  qty = q;
  purchase_price = p.price;
}

-- The product after the sale, and the row of the sale.
abbrev pub after_sale : List OrderItemDto → Product → Option Product
after_sale asked p = elim (asked_qty p.id asked) [
  | none ↦ none
  | some q ↦ some (record p { stock = p.stock -ℤ q })
]

abbrev pub sale : ℕ → List OrderItemDto → Product → Option NewItem
sale order_id asked p = elim (asked_qty p.id asked) [
  | none ↦ none
  | some q ↦ some (sold_row order_id p q)
]

abbrev pub then_sold : {A : Type 0} → Option Product → (Product → Option A) → Option A
then_sold none f = none
then_sold (some p) f = f p

module _ (order_id : ℕ) (asked : List OrderItemDto) where
  -- How the loop's first round ends, when the whole loop succeeds.
  pub reserve-cons :
      (p : Product) (ps : List Product) (rows : List NewItem) (left : List Product)
      → reserve order_id asked (p ∷ ps) ≡ ok (rows, left)
      → (q : ℤ) × (rows' : List NewItem) × (left' : List Product) × (asked_qty p.id asked ≡ some q)
        × (ltb_ℤ p.stock q ≡ false)
        × (reserve order_id asked ps ≡ ok (rows', left'))
        × (rows ≡ sold_row order_id p q ∷ rows')
        × (left ≡ record p { stock = p.stock -ℤ q } ∷ left')
  unfolding reserve
  reserve-cons p ps rows left h = elim (Option-cases (asked_qty p.id asked)) [
    | inl e ↦ absurd (ground arith)
    | inr (q, e) ↦ elim (Bool-cases (ltb_ℤ p.stock q)) [
      | inl short ↦ absurd (ground arith)
      | inr enough ↦ elim (Result-cases (reserve order_id asked ps)) [
        | inr (x, k) ↦ absurd (ground arith)
        | inl ((rows', left'), k) ↦ (q, rows', left', e, enough, k, ground arith, ground arith)
      ]
    ]
  ]

  pub product_for-reserve :
      (j : ℕ) (ps : List Product) (rows : List NewItem) (left : List Product)
      → reserve order_id asked ps ≡ ok (rows, left)
      → product_for j left ≡ then_sold (product_for j ps) (after_sale asked)
  product_for-reserve j [] rows left h = unfold reserve in ground arith
  product_for-reserve j (p ∷ ps) rows left h =
      let (q, rows', left', e, enough, k, r, l) = reserve-cons p ps rows left h in
      ground (arith, product_for-reserve j ps rows' left' k)

  pub new_item_for-reserve :
      (o j : ℕ) (ps : List Product) (rows : List NewItem) (left : List Product)
      → reserve order_id asked ps ≡ ok (rows, left)
      → new_item_for o j rows
        ≡ (if order_id == o then then_sold (product_for j ps) (sale order_id asked) else none)
  new_item_for-reserve o j [] rows left h = unfold reserve in ground arith
  new_item_for-reserve o j (p ∷ ps) rows left h =
      let (q, rows', left', e, enough, k, r, l) = reserve-cons p ps rows left h in
      ground (arith, new_item_for-reserve o j ps rows' left' k)

  -- Every product of the loop was asked for, and had enough.
  pub reserve-enough :
      (j : ℕ) (p : Product) (ps : List Product) (rows : List NewItem) (left : List Product)
      → reserve order_id asked ps ≡ ok (rows, left)
      → product_for j ps ≡ some p
      → (q : ℤ) × (asked_qty p.id asked ≡ some q) × (q ≤ℤ p.stock)
  reserve-enough j p [] rows left h f = absurd (ground arith)
  reserve-enough j p (x ∷ ps) rows left h f =
      let (q, rows', left', e, enough, k, r, l) = reserve-cons x ps rows left h in
      elim (Bool-cases (x.id == j)) [
        | inl hit ↦ (q, ground arith, ground arith)
        | inr miss ↦ reserve-enough j p ps rows' left' k (ground arith)
      ]

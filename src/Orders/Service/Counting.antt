-- ===== src/Orders/Service/Counting.antt =====
-- The check of `createOrder` on the number of products that were found, and its loop when one of them
-- has too little stock (src/orders/orders.service.ts).
use nodejs_pro_task.Base.{
  ℕ, suc, ◌+◌, ◌≡◌, refl, ap, subst, ◌∙◌, ◌⊎◌, inl, inr, Bool-cases, Option-cases, Bool, true,
  false, ◌&&◌, Option, none, some, List, [], ◌∷◌, length, ◌==◌, ==-refl, eq_of_==, contains,
  distinct, Within, Within-length, length-map, arith, if◌then◌else◌,
}
use nodejs_pro_task.Base.Int.{ℤ, ltb_ℤ, ◌≤ℤ◌}
use nodejs_pro_task.Errors.{domain, not_enough_items_in_stock, err}
use nodejs_pro_task.Schema.{Product, Tables}
use nodejs_pro_task.Database.Queries.{product_for}
use nodejs_pro_task.Orders.Service.Reservation.{OrderItemDto, asked_qty, reserve}
use nodejs_pro_task.Orders.Service.Reserved.{ids_of}
use nodejs_pro_task.Orders.Service.Refinement.{keys, product_for_of_contains}
use nodejs_pro_task.Orders.Service.Possible.{contains_of_product_for}

abbrev pub is_some : {A : Type 0} → Option A → Bool
is_some none = false
is_some (some a) = true

-- How many of the products are not there, and those that are.
abbrev pub missing : List ℕ → Tables → ℕ
missing [] t = 0
missing (i ∷ is) t = let rest = missing is t in if is_some (t.products i) then rest else suc rest

abbrev present : List ℕ → Tables → List ℕ
present [] t = []
present (i ∷ is) t = let rest = present is t in if is_some (t.products i) then i ∷ rest else rest

length-present : (is : List ℕ) (t : Tables) → length (present is t) + missing is t ≡ length is
length-present [] t = refl
length-present (i ∷ is) t = ground (arith, length-present is t)

contains-present :
    (is : List ℕ) (t : Tables) (j : ℕ)
    → contains (present is t) j ≡ (contains is j && is_some (t.products j))
contains-present [] t j = refl
contains-present (i ∷ is) t j = elim (Bool-cases (i == j)) [
  | inl here ↦
      let same : is_some (t.products i) ≡ is_some (t.products j) =
        ap (λ k. is_some (t.products k)) (eq_of_== i j here) in
      ground (arith, contains-present is t j)
  | inr later ↦ ground (arith, contains-present is t j)
]

distinct-present : (is : List ℕ) (t : Tables) → distinct is ≡ true → distinct (present is t) ≡ true
distinct-present [] t d = refl
distinct-present (i ∷ is) t d = ground (arith, distinct-present is t, contains-present is t i)

-- What the loop has gone through, and where it has stopped.
abbrev pub AllFit : List OrderItemDto → List Product → Type 0
AllFit asked ps =
    (j : ℕ) (p : Product) (q : ℤ)
    → product_for j ps ≡ some p
    → asked_qty p.id asked ≡ some q
    → q ≤ℤ p.stock

-- A product of the list has less than is asked for.
pub record Lacks (asked : List OrderItemDto) (ps : List Product) (p : Product) (q : ℤ)
    : Type 0 where
  pub among : product_for p.id ps ≡ some p
  pub asks : asked_qty p.id asked ≡ some q
  pub short : ltb_ℤ p.stock q ≡ true

fits_all :
    (asked : List OrderItemDto) (p : Product) (ps : List Product) (q : ℤ)
    → asked_qty p.id asked ≡ some q
    → ltb_ℤ p.stock q ≡ false
    → AllFit asked ps
    → AllFit asked (p ∷ ps)
fits_all asked p ps q e fits all j x r h k = elim (Bool-cases (p.id == j)) [
  | inr miss ↦ all j x r (ground arith) k
  | inl hit ↦
      let same : p ≡ x = ground arith in
      let k' : asked_qty p.id asked ≡ some r =
        ap (λ (y : Product). asked_qty y.id asked) same ∙ k in
      let alike : q ≡ r = ground arith in
      subst (λ (y : Product). r ≤ℤ y.stock) same
        (subst (λ (m : ℤ). m ≤ℤ p.stock) alike (ground arith))
]

pub reserve-cases :
    (order_id : ℕ) (asked : List OrderItemDto) (ps : List Product)
    → distinct (keys ps) ≡ true
    → ((j : ℕ) (p : Product)
        → product_for j ps ≡ some p
        → (q : ℤ) × (asked_qty p.id asked ≡ some q))
    → AllFit asked ps
      ⊎ ((p : Product) × (q : ℤ) × Lacks asked ps p q
          × (reserve order_id asked ps ≡ err (domain (not_enough_items_in_stock p.id q p.stock))))
unfolding reserve
reserve-cases order_id asked [] d each = inl (λ j p q h. absurd (ground arith))
reserve-cases order_id asked (p ∷ ps) d each =
    let (q, e) = each p.id p (ground (arith, ==-refl p.id)) in
    elim (Bool-cases (ltb_ℤ p.stock q)) [
      | inl short ↦ inr (
        p,
        q,
        record { among = ground (arith, ==-refl p.id); asks = e; short = short },
        ground arith,
      )
      | inr fits ↦
          elim (reserve-cases order_id asked ps (ground arith) (λ j x h.
            let (held, _) = contains_of_product_for j ps x h in each j x (ground arith))) [
              | inl all ↦ inl (fits_all asked p ps q e fits all)
              | inr (x, r, l, f) ↦ inr (
                x,
                r,
                let (held, _) = contains_of_product_for x.id ps x l.among in
                    record { among = ground arith; asks = l.asks; short = l.short },
                ground arith,
              )
            ]
    ]

-- The products that are locked for a request.
module _ (t : Tables) (asked : List OrderItemDto) (ps : List Product)
    (locked : (j : ℕ)
      → product_for j ps ≡ (if contains (ids_of asked) j then t.products j else none))
    (unique : distinct (keys ps) ≡ true) where
  pub length-locked :
      distinct (ids_of asked) ≡ true → length ps + missing (ids_of asked) t ≡ length asked
  length-locked d =
      let most = Within-length (keys ps) (present (ids_of asked) t) unique held in
      let least =
        Within-length (present (ids_of asked) t) (keys ps) (distinct-present (ids_of asked) t d)
          found in
      omega (
        arith,
        length-map (λ (p : Product). p.id) ps,
        length-map (λ (i : OrderItemDto). i.id) asked,
        length-present (ids_of asked) t,
        most,
        least,
      )
    where
      held : Within (keys ps) (present (ids_of asked) t)
      held j h =
          let (p, e) = product_for_of_contains j ps h in
          ground (arith, locked j, contains-present (ids_of asked) t j)

      found : Within (present (ids_of asked) t) (keys ps)
      found j h = elim (Option-cases (product_for j ps)) [
        | inr (p, e) ↦ (contains_of_product_for j ps p e).0
        | inl e ↦ absurd (ground (arith, locked j, contains-present (ids_of asked) t j))
      ]

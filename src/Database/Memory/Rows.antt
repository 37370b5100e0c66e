-- ===== src/Database/Memory/Rows.antt =====
-- The orders of the database in memory, with their items: an order's identifier is the number of the
-- orders behind it.
use nodejs_pro_task.Base.{
  ℕ, ◌≡◌, refl, Bool, true, false, ◌&&◌, Option, none, some, List, [], ◌∷◌, ◌==◌, length, ◌<◌, ◌≤◌,
  inl, inr, Bool-cases, if◌then◌else◌, arith, ltb, subst, eq_of_==,
}
use nodejs_pro_task.Schema.{Order, OrderItem}
use nodejs_pro_task.Database.Queries.{NewItem, item_for, new_item_for, inserted_item}

pub record Row : Type 0 where
  pub order : Order
  pub items : List OrderItem

abbrev pub named : ℕ → Order → Order
named j o = record o { id = j }

abbrev pub at : ℕ → List Row → Option Row
at j [] = none
at j (r ∷ rs) = if length rs == j then some r else at j rs

abbrev pub order_at : ℕ → List Row → Option Order
order_at j rs = elim (at j rs) [ none ↦ none | some r ↦ some (named j r.order) ]

abbrev pub item_at : ℕ → ℕ → List Row → Option OrderItem
item_at o j rs = elim (at o rs) [ none ↦ none | some r ↦ item_for j r.items ]

pub at-fresh : (j : ℕ) (rs : List Row) → length rs ≤ j → at j rs ≡ none
at-fresh j [] h = refl
at-fresh j (r ∷ rs) h = ground (arith, at-fresh j rs)

-- The first order that passes a test, under its identifier.
abbrev pub find_row : (Order → Bool) → List Row → Option (ℕ × Row)
find_row p [] = none
find_row p (r ∷ rs) = if p (named (length rs) r.order) then some (length rs, r) else find_row p rs

pub find_row-at :
    (p : Order → Bool) (j : ℕ) (r : Row) (rs : List Row)
    → find_row p rs ≡ some (j, r)
    → (at j rs ≡ some r) × (p (named j r.order) ≡ true) × (j < length rs)
find_row-at p j r [] h = absurd (ground arith)
find_row-at p j r (x ∷ rs) h = elim (Bool-cases (p (named (length rs) x.order))) [
  | inl hit ↦ (ground arith, ground arith, ground arith)
  | inr miss ↦ let (e, f, g) = find_row-at p j r rs (ground arith) in (ground arith, f, omega arith)
]

pub find_row-none :
    (p : Order → Bool) (j : ℕ) (r : Row) (rs : List Row)
    → find_row p rs ≡ none
    → at j rs ≡ some r
    → p (named j r.order) ≡ false
find_row-none p j r [] h e = absurd (ground arith)
find_row-none p j r (x ∷ rs) h e = elim (Bool-cases (p (named (length rs) x.order))) [
  | inl hit ↦ absurd (ground arith)
  | inr miss ↦ elim (Bool-cases (length rs == j)) [
    | inl here ↦
        let same : x ≡ r = ground arith in
        subst (λ (y : Row). p (named j y.order) ≡ false) same
          (subst (λ (k : ℕ). p (named k x.order) ≡ false) (eq_of_== (length rs) j here) miss)
    | inr later ↦ find_row-none p j r rs (ground arith) (ground arith)
  ]
]

-- A change of one row.
abbrev pub amend : ℕ → (Row → Row) → List Row → List Row
amend j f [] = []
amend j f (r ∷ rs) = if length rs == j then f r ∷ rs else r ∷ amend j f rs

length-amend : (j : ℕ) (f : Row → Row) (rs : List Row) → length (amend j f rs) ≡ length rs
length-amend j f [] = refl
length-amend j f (r ∷ rs) = ground (arith, length-amend j f rs)

pub at-amend :
    (o j : ℕ) (f : Row → Row) (rs : List Row)
    → at o (amend j f rs)
      ≡ (if o == j then (elim (at o rs) [ none ↦ none | some r ↦ some (f r) ]) else at o rs)
at-amend o j f [] = ground arith
at-amend o j f (r ∷ rs) = ground (arith, at-amend o j f rs, length-amend j f rs)

abbrev pub put_item : ℕ → NewItem → Row → Row
put_item moment i r = record r { items = inserted_item moment i ∷ r.items }

-- `save` of items, each in front of those that its order has.
abbrev pub put_all : ℕ → List NewItem → List Row → List Row
put_all moment [] rs = rs
put_all moment (i ∷ is) rs = amend i.order_id (put_item moment i) (put_all moment is rs)

abbrev pub all_known : List NewItem → List Row → Bool
all_known [] rs = true
all_known (i ∷ is) rs = ltb i.order_id (length rs) && all_known is rs

pub at-known : (o : ℕ) (rs : List Row) → o < length rs → (r : Row) × (at o rs ≡ some r)
at-known o [] h = absurd (omega arith)
at-known o (r ∷ rs) h = elim (Bool-cases (length rs == o)) [
  | inl here ↦ (r, ground arith)
  | inr later ↦ let (q, e) = at-known o rs (ground arith) in (q, ground arith)
]

pub order_at-put_all :
    (moment o : ℕ) (is : List NewItem) (rs : List Row)
    → order_at o (put_all moment is rs) ≡ order_at o rs
order_at-put_all moment o [] rs = refl
order_at-put_all moment o (i ∷ is) rs = ground (
  arith,
  at-amend o i.order_id (put_item moment i) (put_all moment is rs),
  order_at-put_all moment o is rs,
)

at-put_all :
    (moment o : ℕ) (is : List NewItem) (rs : List Row) (r : Row)
    → at o rs ≡ some r
    → (q : Row) × (at o (put_all moment is rs) ≡ some q)
at-put_all moment o [] rs r h = (r, h)
at-put_all moment o (i ∷ is) rs r h =
    let (q, e) = at-put_all moment o is rs r h in
    elim (Bool-cases (o == i.order_id)) [
      | inl here ↦ (
        put_item moment i q,
        ground (arith, at-amend o i.order_id (put_item moment i) (put_all moment is rs)),
      )
      | inr other ↦
          (q, ground (arith, at-amend o i.order_id (put_item moment i) (put_all moment is rs)))
    ]

pub item_at-put_all :
    (moment o j : ℕ) (is : List NewItem) (rs : List Row)
    → all_known is rs ≡ true
    → item_at o j (put_all moment is rs) ≡ (elim (new_item_for o j is) [
      | none ↦ item_at o j rs
      | some i ↦ some (inserted_item moment i)
    ])
item_at-put_all moment o j [] rs h = refl
item_at-put_all moment o j (i ∷ is) rs h =
    let known = at-known i.order_id rs (ground arith) in
    let (q, e) = at-put_all moment i.order_id is rs known.0 known.1 in
    ground (
      arith,
      at-amend o i.order_id (put_item moment i) (put_all moment is rs),
      item_at-put_all moment o j is rs (ground arith),
      eq_of_== i.order_id o,
    )

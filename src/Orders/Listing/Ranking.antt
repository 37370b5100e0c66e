-- ===== src/Orders/Listing/Ranking.antt =====
-- The orders that meet the conditions of a list, newest first (find of
-- src/orders/orders.repository.ts).
use nodejs_pro_task.Base.{
  Among, ◌≡◌, ◌≢◌, ◌<◌, ◌≤◌, refl, sym, ap, ◌∙◌, inl, inr, true, some, List, [], ◌∷◌, arith,
}
use nodejs_pro_task.Schema.{Order, Tables}
use nodejs_pro_task.Orders.Listing.{OrderFilter, accepts}

-- No order is newer than the one before it, and no identifier stands there twice.
abbrev pub NewestFirst : List Order → Type 0
NewestFirst [] = Unit
NewestFirst (o ∷ os) =
    ((x : Order) → Among x os → (x.created_at ≤ o.created_at) × (x.id ≢ o.id)) × NewestFirst os

-- The rows are all that meet the conditions, newest first; those of one moment in any order.
pub record Ranked (f : OrderFilter) (t : Tables) (rows : List Order) : Type 0 where
  pub newest_first : NewestFirst rows
  pub only : (o : Order) → Among o rows → (t.orders o.id ≡ some o) × (accepts f o ≡ true)
  pub all : (o : Order) → t.orders o.id ≡ some o → accepts f o ≡ true → Among o rows

-- No two orders that meet the conditions were created at one moment.
abbrev pub NoTies : OrderFilter → Tables → Type 0
NoTies f t =
    (o p : Order)
    → t.orders o.id ≡ some o
    → t.orders p.id ≡ some p
    → accepts f o ≡ true
    → accepts f p ≡ true
    → o.created_at ≡ p.created_at
    → o.id ≡ p.id

abbrev Falls : List Order → Type 0
Falls [] = Unit
Falls (o ∷ os) = ((x : Order) → Among x os → x.created_at < o.created_at) × Falls os

abbrev Covers : List Order → List Order → Type 0
Covers xs ys = (o : Order) → Among o xs → Among o ys

older : (x o : Order) (os : List Order) → Falls (o ∷ os) → Among x os → x.created_at < o.created_at
older x o os (below, _) there = below x there

-- Behind two equal heads the same orders follow.
Covers-tail :
    (x y : Order) (xs ys : List Order)
    → x ≡ y
    → Falls (x ∷ xs)
    → Covers (x ∷ xs) (y ∷ ys)
    → Covers xs ys
Covers-tail x y xs ys same falls covers o there = elim (covers o (inr there)) [
  | inr later ↦ later
  | inl here ↦
      let below = older o x xs falls there in
      let e : o.created_at ≡ x.created_at = ap (λ (z : Order). z.created_at) (here ∙ sym same) in
      absurd (omega arith)
]

same_head :
    (x y : Order) (xs ys : List Order)
    → Falls (x ∷ xs)
    → Falls (y ∷ ys)
    → Among x (y ∷ ys)
    → Among y (x ∷ xs)
    → x ≡ y
same_head x y xs ys f g (inl h) k = h
same_head x y xs ys f g (inr h) (inl k) = sym k
same_head x y xs ys f g (inr h) (inr k) =
    let a = older x y ys g h in let b = older y x xs f k in absurd (omega arith)

-- Two lists that fall strictly and have the same orders are one.
Falls-unique : (xs ys : List Order) → Falls xs → Falls ys → Covers xs ys → Covers ys xs → xs ≡ ys
Falls-unique [] [] f g h k = refl
Falls-unique [] (y ∷ ys) f g h k = absurd (k y (inl refl))
Falls-unique (x ∷ xs) [] f g h k = absurd (h x (inl refl))
Falls-unique (x ∷ xs) (y ∷ ys) f g h k =
    let same = same_head x y xs ys f g (h x (inl refl)) (k y (inl refl)) in
    let rest =
      Falls-unique xs ys f.1 g.1 (Covers-tail x y xs ys same f h)
        (Covers-tail y x ys xs (sym same) g k) in
    λ i. same i ∷ rest i

module _ (f : OrderFilter) (t : Tables) (no_ties : NoTies f t) where
  NewestFirst-Falls :
      (rows : List Order)
      → NewestFirst rows
      → ((o : Order) → Among o rows → (t.orders o.id ≡ some o) × (accepts f o ≡ true))
      → Falls rows
  NewestFirst-Falls [] s only = tt
  NewestFirst-Falls (o ∷ os) (below, s) only = (
    (λ x there.
        let (not_newer, other) = below x there in
        let (stored, accepted) = only x (inr there) in
        let (stored', accepted') = only o (inl refl) in
        let differ : x.created_at ≢ o.created_at =
          λ e. other (no_ties x o stored stored' accepted accepted' e) in
        ground arith),
    NewestFirst-Falls os s (λ x there. only x (inr there)),
  )

  -- Without ties there is one such list.
  pub Ranked-unique : (xs ys : List Order) → Ranked f t xs → Ranked f t ys → xs ≡ ys
  Ranked-unique xs ys a b =
      Falls-unique xs ys (NewestFirst-Falls xs a.newest_first a.only)
        (NewestFirst-Falls ys b.newest_first b.only)
        (λ o there. let (stored, accepted) = a.only o there in b.all o stored accepted)
        (λ o there. let (stored, accepted) = b.only o there in a.all o stored accepted)

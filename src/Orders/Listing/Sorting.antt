-- ===== src/Orders/Listing/Sorting.antt =====
-- The rows of the database in memory that meet the conditions of a list, newest first.
use nodejs_pro_task.Base.{
  Among, ◌<◌, ◌≡◌, ◌≢◌, ◌⊎◌, refl, sym, ap, subst, ◌∙◌, inl, inr, Bool-cases, true, some, List, [],
  ◌∷◌, ◌==◌, ==-refl, eq_of_==, leb, arith, length, if◌then◌else◌,
}
use nodejs_pro_task.Schema.{Order}
use nodejs_pro_task.Database.Memory.Rows.{Row, named, order_at}
use nodejs_pro_task.Orders.Listing.{OrderFilter, accepts}
use nodejs_pro_task.Orders.Listing.Ranking.{NewestFirst}

-- An order goes in front of the first that is not newer.
abbrev insert : Order → List Order → List Order
insert o [] = o ∷ []
insert o (x ∷ xs) =
    let rest = insert o xs in if leb x.created_at o.created_at then o ∷ x ∷ xs else x ∷ rest

abbrev pub ranked : OrderFilter → List Row → List Order
ranked f [] = []
ranked f (r ∷ rs) =
    let rest = ranked f rs in
    if accepts f (named (length rs) r.order) then insert (named (length rs) r.order) rest else rest

insert-Among : (x o : Order) (os : List Order) → Among x (insert o os) → (x ≡ o) ⊎ Among x os
insert-Among x o [] h = h
insert-Among x o (y ∷ ys) h = elim (Bool-cases (leb y.created_at o.created_at)) [
  | inl hit ↦ subst (Among x) (let e : insert o (y ∷ ys) ≡ o ∷ y ∷ ys = ground arith in e) h
  | inr miss ↦
      let e : insert o (y ∷ ys) ≡ y ∷ insert o ys = ground arith in
      elim (subst (Among x) e h) [
        | inl first ↦ inr (inl first)
        | inr later ↦ elim (insert-Among x o ys later) [
          | inl new ↦ inl new
          | inr old ↦ inr (inr old)
        ]
      ]
]

Among-insert : (x o : Order) (os : List Order) → (x ≡ o) ⊎ Among x os → Among x (insert o os)
Among-insert x o [] h = h
Among-insert x o (y ∷ ys) h = elim (Bool-cases (leb y.created_at o.created_at)) [
  | inl hit ↦ let e : insert o (y ∷ ys) ≡ o ∷ y ∷ ys = ground arith in subst (Among x) (sym e) h
  | inr miss ↦
      let e : insert o (y ∷ ys) ≡ y ∷ insert o ys = ground arith in
      subst (Among x) (sym e) (elim h [
        | inl new ↦ inr (Among-insert x o ys (inl new))
        | inr old ↦ elim old [
          | inl first ↦ inl first
          | inr later ↦ inr (Among-insert x o ys (inr later))
        ]
      ])
]

insert-NewestFirst :
    (o : Order) (os : List Order)
    → NewestFirst os
    → ((x : Order) → Among x os → x.id ≢ o.id)
    → NewestFirst (insert o os)
insert-NewestFirst o [] s fresh = ((λ x h. absurd h), tt)
insert-NewestFirst o (y ∷ ys) (below, s) fresh = elim (Bool-cases (leb y.created_at o.created_at)) [
  | inl hit ↦
      let e : insert o (y ∷ ys) ≡ o ∷ y ∷ ys = ground arith in
      subst NewestFirst (sym e) (
        (λ x there. (
          elim there [
            | inl same ↦
                let at_once : x.created_at ≡ y.created_at = ap (λ (z : Order). z.created_at) same in
                ground arith
            | inr later ↦ let (older, _) = below x later in ground arith
          ],
          fresh x there,
        )),
        (below, s),
      )
  | inr miss ↦
      let e : insert o (y ∷ ys) ≡ y ∷ insert o ys = ground arith in
      subst NewestFirst (sym e) (
        (λ x there. elim (insert-Among x o ys there) [
          | inr later ↦ below x later
          | inl new ↦
              let moment : x.created_at ≡ o.created_at = ap (λ (z : Order). z.created_at) new in
              let other = fresh y (inl refl) in
              (ground arith, λ k. other (sym k ∙ ap (λ (z : Order). z.id) new))
        ]),
        insert-NewestFirst o ys s (λ x h. fresh x (inr h)),
      )
]

-- A row that meets the conditions.
abbrev Known : OrderFilter → List Row → Order → Type 0
Known f rs o = (o.id < length rs) × (order_at o.id rs ≡ some o) × (accepts f o ≡ true)

pub ranked-Known :
    (f : OrderFilter) (rs : List Row) (o : Order) → Among o (ranked f rs) → Known f rs o
ranked-Known f [] o h = absurd h
ranked-Known f (r ∷ rs) o h = elim (Bool-cases (accepts f (named (length rs) r.order))) [
  | inl hit ↦
      let e : ranked f (r ∷ rs) ≡ insert (named (length rs) r.order) (ranked f rs) = ground arith in
      elim (insert-Among o (named (length rs) r.order) (ranked f rs) (subst (Among o) e h)) [
        | inl new ↦
            subst (Known f (r ∷ rs)) (sym new)
              (ground arith, ground (arith, ==-refl (length rs)), hit)
        | inr old ↦ behind (ranked-Known f rs o old)
      ]
  | inr miss ↦
      let e : ranked f (r ∷ rs) ≡ ranked f rs = ground arith in
      behind (ranked-Known f rs o (subst (Among o) e h))
]
  where
    behind : Known f rs o → Known f (r ∷ rs) o
    behind (below, stored, accepted) = (omega arith, ground arith, accepted)

pub Known-ranked :
    (f : OrderFilter) (rs : List Row) (o : Order)
    → order_at o.id rs ≡ some o
    → accepts f o ≡ true
    → Among o (ranked f rs)
Known-ranked f [] o stored accepted = absurd (ground arith)
Known-ranked f (r ∷ rs) o stored accepted = elim (Bool-cases (length rs == o.id)) [
  | inl here ↦
      let i : length rs ≡ o.id = eq_of_== (length rs) o.id here in
      let k : named o.id r.order ≡ o = ground arith in
      let same : named (length rs) r.order ≡ o = ap (λ j. named j r.order) i ∙ k in
      let hit : accepts f (named (length rs) r.order) ≡ true = ap (accepts f) same ∙ accepted in
      let e : ranked f (r ∷ rs) ≡ insert (named (length rs) r.order) (ranked f rs) = ground arith in
      subst (Among o) (sym e)
        (Among-insert o (named (length rs) r.order) (ranked f rs) (inl (sym same)))
  | inr later ↦
      let old = Known-ranked f rs o (ground arith) accepted in
      elim (Bool-cases (accepts f (named (length rs) r.order))) [
        | inl hit ↦
            let e : ranked f (r ∷ rs) ≡ insert (named (length rs) r.order) (ranked f rs) =
              ground arith in
            subst (Among o) (sym e)
              (Among-insert o (named (length rs) r.order) (ranked f rs) (inr old))
        | inr miss ↦
            let e : ranked f (r ∷ rs) ≡ ranked f rs = ground arith in subst (Among o) (sym e) old
      ]
]

pub ranked-NewestFirst : (f : OrderFilter) (rs : List Row) → NewestFirst (ranked f rs)
ranked-NewestFirst f [] = tt
ranked-NewestFirst f (r ∷ rs) = elim (Bool-cases (accepts f (named (length rs) r.order))) [
  | inl hit ↦
      let e : ranked f (r ∷ rs) ≡ insert (named (length rs) r.order) (ranked f rs) = ground arith in
      subst NewestFirst (sym e) (
        insert-NewestFirst (named (length rs) r.order) (ranked f rs) (ranked-NewestFirst f rs)
          (λ x there. let (below, _, _) = ranked-Known f rs x there in λ k. omega arith))
  | inr miss ↦
      let e : ranked f (r ∷ rs) ≡ ranked f rs = ground arith in
      subst NewestFirst (sym e) (ranked-NewestFirst f rs)
]

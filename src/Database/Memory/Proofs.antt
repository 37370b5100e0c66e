-- ===== src/Database/Memory/Proofs.antt =====
-- The database in memory keeps the contract.
use nodejs_pro_task.Base.{
  ℕ, ◌≡◌, refl, subst, inl, inr, false, none, some, List, [], ◌∷◌, ◌==◌, length, if◌then◌else◌,
  Option-cases, arith,
}
use nodejs_pro_task.Errors.{ok}
use nodejs_pro_task.Schema.{User, Order}
use nodejs_pro_task.Database.Contract.{HasKey, IsNewOrder, IsLoaded, with_order}
use nodejs_pro_task.Database.Queries.{LoadedOrder, FindOptions, load, meets}
use nodejs_pro_task.Database.Memory.{
  Store, tables, user_for, has_key, new_order, save_order, find_one, find_one_or_fail, memory,
}
use nodejs_pro_task.Database.Memory.Rows.{
  Row, named, at, order_at, item_at, find_row, at-fresh, find_row-at, find_row-none,
}

pub order_at-id : (j : ℕ) (o : Order) (rs : List Row) → order_at j rs ≡ some o → o.id ≡ j
order_at-id j o rs h = elim (Option-cases (at j rs)) [
  | inl e ↦ absurd (ground arith)
  | inr (r, e) ↦ ground arith
]

pub HasKey-find_row :
    (user key : ℕ) (s : Store) (j : ℕ) (r : Row)
    → find_row (has_key user key) s.rows ≡ some (j, r)
    → HasKey memory (tables s) user key
HasKey-find_row user key s j r h =
    let (e, f, _) = find_row-at (has_key user key) j r s.rows h in
    (named j r.order, ground arith, ground arith, ground arith)

pub no_key :
    (user key : ℕ) (s : Store)
    → find_row (has_key user key) s.rows ≡ none
    → ¬ HasKey memory (tables s) user key
no_key user key s h (o, stored, u, k) = elim (Option-cases (at o.id s.rows)) [
  | inl e ↦ absurd (ground arith)
  | inr (r, e) ↦
      let miss = find_row-none (has_key user key) o.id r s.rows h e in absurd (ground arith)
]

abbrev inserted : ℕ → ℕ → Store → Store
inserted user key s = record s {
  rows = record { order = new_order user key s; items = [] } ∷ s.rows;
}

new_order-IsNewOrder :
    (user key : ℕ) (s : Store) → IsNewOrder memory s user key (new_order user key s)
new_order-IsNewOrder user key s =
    let free = at-fresh (length s.rows) s.rows (omega arith) in
    record {
      fresh = ground arith;
      no_items = λ j. ground arith;
      of_user = refl;
      of_key = refl;
      is_created = refl;
      made = refl;
      touched = refl;
      unprocessed = refl;
    }

tables-inserted :
    (user key : ℕ) (s : Store)
    → tables (inserted user key s) ≡ with_order memory (tables s) (new_order user key s)
tables-inserted user key s =
    λ i. record (tables s) { orders = λ j. same_order j i; order_items = λ o j. same_item o j i }
  where
    row : Row
    row = record { order = new_order user key s; items = [] }

    same_order :
        (j : ℕ)
        → order_at j (row ∷ s.rows)
          ≡ (if j == length s.rows then some (new_order user key s) else order_at j s.rows)
    same_order j = ground arith

    same_item : (o j : ℕ) → item_at o j (row ∷ s.rows) ≡ item_at o j s.rows
    same_item o j = ground (arith, at-fresh o s.rows)

known_user :
    (user key : ℕ) (s s' : Store) (o : Order)
    → save_order user key s ≡ ok (o, s')
    → find_row (has_key user key) s.rows ≡ none
    → (u : User) × (user_for user s.users ≡ some u)
unfolding save_order
known_user user key s s' o h e = elim (Option-cases (user_for user s.users)) [
  | inl f ↦ absurd (ground arith)
  | inr found ↦ found
]

pub saved_order :
    (user key : ℕ) (s s' : Store) (o : Order)
    → save_order user key s ≡ ok (o, s')
    → (¬ HasKey memory (tables s) user key)
      × IsNewOrder memory s user key o
      × (tables s' ≡ with_order memory (tables s) o)
      × (s'.clock ≡ s.clock)
unfolding save_order
saved_order user key s s' o h = elim (Option-cases (find_row (has_key user key) s.rows)) [
  | inr (x, e) ↦ absurd (ground arith)
  | inl e ↦
      let there = known_user user key s s' o h e in
      let order : new_order user key s ≡ o = ground (arith, there) in
      let store : inserted user key s ≡ s' = ground arith in
      (
        no_key user key s e,
        subst (λ (x : Order). IsNewOrder memory s user key x) order
            (new_order-IsNewOrder user key s),
        subst (λ (x : Order). tables s' ≡ with_order memory (tables s) x) order
            (subst (λ (t : Store). tables t ≡ with_order memory (tables s) (new_order user key s))
              store (tables-inserted user key s)),
        ground arith,
      )
]

pub IsLoaded-find_row :
    (q : FindOptions) (s : Store) (j : ℕ) (r : Row)
    → find_row (meets q) s.rows ≡ some (j, r)
    → IsLoaded memory s q (load q (named j r.order) r.items)
IsLoaded-find_row q s j r h =
    let (e, f, _) = find_row-at (meets q) j r s.rows h in
    record {
      row = named j r.order;
      items = r.items;
      stored = ground arith;
      met = f;
      each = λ p. ground arith;
      loaded = refl;
    }

pub found_one :
    (q : FindOptions) (s : Store) (l : LoadedOrder)
    → find_one q s ≡ ok (some l)
    → IsLoaded memory s q l
unfolding find_one
found_one q s l h = elim (Option-cases (find_row (meets q) s.rows)) [
  | inl e ↦ absurd (ground arith)
  | inr ((j, r), e) ↦
      subst (λ (x : LoadedOrder). IsLoaded memory s q x) (ground arith)
        (IsLoaded-find_row q s j r e)
]

pub found_one_or_fail :
    (q : FindOptions) (s : Store) (l : LoadedOrder)
    → find_one_or_fail q s ≡ ok l
    → IsLoaded memory s q l
unfolding find_one_or_fail
found_one_or_fail q s l h = elim (Option-cases (find_row (meets q) s.rows)) [
  | inl e ↦ absurd (ground arith)
  | inr ((j, r), e) ↦
      subst (λ (x : LoadedOrder). IsLoaded memory s q x) (ground arith)
        (IsLoaded-find_row q s j r e)
]

pub found_none :
    (q : FindOptions) (s : Store) (o : Order)
    → find_one q s ≡ ok none
    → order_at o.id s.rows ≡ some o
    → meets q o ≡ false
unfolding find_one
found_none q s o h stored = elim (Option-cases (find_row (meets q) s.rows)) [
  | inr (x, e) ↦ absurd (ground arith)
  | inl e ↦ elim (Option-cases (at o.id s.rows)) [
    | inl f ↦ absurd (ground arith)
    | inr (r, f) ↦
        let same : named o.id r.order ≡ o = ground arith in
        subst (λ (x : Order). meets q x ≡ false) same (find_row-none (meets q) o.id r s.rows e f)
  ]
]

-- ===== src/Migrations/Backfill.antt =====
-- The keys that src/migrations/1770901187228-add-idempotency-key.ts gives to the orders that are there.
use nodejs_pro_task.Base.{
  ℕ, zero, suc, ◌≤◌, String, ◌≡◌, refl, false, none, some, List, [], ◌∷◌, ◌++◌, arith, str_eq,
}
use nodejs_pro_task.Errors.{ok}
use nodejs_pro_task.Migrations.{run, exec}
use nodejs_pro_task.Migrations.Catalog.{
  Cell, null, uuid, number, text, SchemaState, any, find, repeat, is_null, fill, cells_of, keys,
  zip_cons, collide, has_collision,
}
use nodejs_pro_task.Migrations.History.{Contents, filled, with_cells}
use nodejs_pro_task.Migrations.AddIdempotencyKey.{up, down}

-- The keys that the orders get.
abbrev pub new_cells : (ℕ → ℕ) → Contents → List Cell
new_cells fresh c = fill fresh 0 (repeat (c.rows "orders") null)

abbrev pub column_cells : SchemaState → String → String → List Cell
column_cells db t n = elim (find (λ x. str_eq x.name t) db.tables) [
  | none ↦ []
  | some x ↦ cells_of x n
]

abbrev pub column_keys : SchemaState → String → List String → List (List Cell)
column_keys db t ns = elim (find (λ x. str_eq x.name t) db.tables) [
  | none ↦ []
  | some x ↦ keys x ns
]

any-is_null-fill :
    (fresh : ℕ → ℕ) (k : ℕ) (cells : List Cell) → any is_null (fill fresh k cells) ≡ false
any-is_null-fill fresh k [] = refl
any-is_null-fill fresh k (null ∷ cs) = any-is_null-fill fresh (suc k) cs
any-is_null-fill fresh k (uuid _ ∷ cs) = any-is_null-fill fresh k cs
any-is_null-fill fresh k (number _ ∷ cs) = any-is_null-fill fresh k cs
any-is_null-fill fresh k (text _ ∷ cs) = any-is_null-fill fresh k cs

module _ (fresh : ℕ → ℕ) (distinct_ids : (i j : ℕ) → fresh i ≡ fresh j → i ≡ j) where
  -- The keys of so many rows, generated from the k-th on, beside the cells of another column.
  abbrev generated : List Cell → ℕ → ℕ → List (List Cell)
  generated us k n = zip_cons us (zip_cons (fill fresh k (repeat n null)) (repeat n []))

  any-collide_later :
      (u : Cell) (i k n : ℕ) (us : List Cell)
      → suc i ≤ k
      → any (collide (u ∷ uuid (fresh i) ∷ [])) (generated us k n) ≡ false
  any-collide_later u i k zero [] h = refl
  any-collide_later u i k zero (v ∷ us) h = refl
  any-collide_later u i k (suc n) [] h = refl
  any-collide_later u i k (suc n) (v ∷ us) h =
      let rest = any-collide_later u i (suc k) n us (omega arith) in
      ground (arith, distinct_ids i k)

  has_collision-generated : (us : List Cell) (k n : ℕ) → has_collision (generated us k n) ≡ false
  has_collision-generated [] k zero = refl
  has_collision-generated [] k (suc n) = refl
  has_collision-generated (u ∷ us) k zero = refl
  has_collision-generated (u ∷ us) k (suc n) =
      let later = any-collide_later u k (suc k) n us (omega arith) in
      let rest = has_collision-generated us (suc k) n in ground arith

  -- With distinct generated identifiers, the migration that adds the idempotency key succeeds on a
  -- database of the first migration with any contents, changes no other column, and leaves no
  -- order without a key and no two orders of one user with the same key.
  pub idempotency_key_up :
      (c : Contents)
      → let c' = with_cells "orders" "idempotency_key" (new_cells fresh c) c in
        (run fresh up (filled 1 c) ≡ ok (filled 2 c'))
        × (any is_null (column_cells (filled 2 c') "orders" "idempotency_key") ≡ false)
        × (has_collision (column_keys (filled 2 c') "orders" ("user_id" ∷ "idempotency_key" ∷ []))
            ≡ false)
  unfolding run exec filled up
  idempotency_key_up c =
      let no_null = any-is_null-fill fresh 0 (repeat (c.rows "orders") null) in
      let no_collision = has_collision-generated (c.cells "orders" "user_id") 0 (c.rows "orders") in
      (ground arith, no_null, no_collision)

  -- With distinct generated identifiers, the migration that adds the idempotency key, run and
  -- reverted on a database of the first migration with any contents, leaves the database as it
  -- was.
  pub idempotency_key_reverted :
      (c : Contents) → run fresh (up ++ down) (filled 1 c) ≡ ok (filled 1 c)
  unfolding run exec filled up down
  idempotency_key_reverted c =
      let no_null = any-is_null-fill fresh 0 (repeat (c.rows "orders") null) in
      let no_collision = has_collision-generated (c.cells "orders" "user_id") 0 (c.rows "orders") in
      ground arith

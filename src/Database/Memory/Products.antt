-- ===== src/Database/Memory/Products.antt =====
-- The products of the database in memory.
use nodejs_pro_task.Base.{
  ℕ, ◌≡◌, refl, true, false, none, some, List, [], ◌∷◌, ◌++◌, map, ◌==◌, contains, distinct,
  if◌then◌else◌, Bool-cases, inl, inr, arith,
}
use nodejs_pro_task.Schema.{Product}
use nodejs_pro_task.Database.Queries.{product_for}

abbrev pub without : ℕ → List ℕ → List ℕ
without a [] = []
without a (x ∷ xs) = if x == a then without a xs else x ∷ without a xs

contains-without_self : (a : ℕ) (xs : List ℕ) → contains (without a xs) a ≡ false
contains-without_self a [] = refl
contains-without_self a (x ∷ xs) = ground (arith, contains-without_self a xs)

contains-without :
    (a b : ℕ) (xs : List ℕ) → (a == b) ≡ false → contains (without a xs) b ≡ contains xs b
contains-without a b [] h = refl
contains-without a b (x ∷ xs) h = ground (arith, contains-without a b xs h)

-- `WHERE id IN (ids)`, each product once.
abbrev pub pick : List ℕ → List Product → List Product
pick ids [] = []
pick ids (p ∷ ps) = if contains ids p.id then p ∷ pick (without p.id ids) ps else pick ids ps

abbrev pub keys : List Product → List ℕ
keys ps = map (λ p. p.id) ps

contains-pick :
    (j : ℕ) (ids : List ℕ) (ps : List Product)
    → contains ids j ≡ false
    → contains (keys (pick ids ps)) j ≡ false
contains-pick j ids [] h = refl
contains-pick j ids (p ∷ ps) h = elim (Bool-cases (contains ids p.id)) [
  | inl hit ↦ ground (arith, contains-pick j (without p.id ids) ps, contains-without p.id j ids)
  | inr miss ↦ ground (arith, contains-pick j ids ps h)
]

pub distinct-pick : (ids : List ℕ) (ps : List Product) → distinct (keys (pick ids ps)) ≡ true
distinct-pick ids [] = refl
distinct-pick ids (p ∷ ps) = ground (
  arith,
  distinct-pick ids ps,
  distinct-pick (without p.id ids) ps,
  contains-pick p.id (without p.id ids) ps (contains-without_self p.id ids),
)

pub product_for-pick :
    (j : ℕ) (ids : List ℕ) (ps : List Product)
    → product_for j (pick ids ps) ≡ (if contains ids j then product_for j ps else none)
product_for-pick j ids [] = ground arith
product_for-pick j ids (p ∷ ps) = ground (
  arith,
  product_for-pick j ids ps,
  product_for-pick j (without p.id ids) ps,
  contains-without p.id j ids,
)

abbrev pub stamped : ℕ → List Product → List Product
stamped moment [] = []
stamped moment (p ∷ ps) = record p { updated_at = moment } ∷ stamped moment ps

pub product_for-stamped :
    (j moment : ℕ) (ps old : List Product)
    → product_for j (stamped moment ps ++ old) ≡ (elim (product_for j ps) [
      | none ↦ product_for j old
      | some p ↦ some (record p { updated_at = moment })
    ])
product_for-stamped j moment [] old = refl
product_for-stamped j moment (p ∷ ps) old = ground (arith, product_for-stamped j moment ps old)

pub product_for-id :
    (j : ℕ) (p : Product) (ps : List Product) → product_for j ps ≡ some p → p.id ≡ j
product_for-id j p [] h = absurd (ground arith)
product_for-id j p (x ∷ ps) h = ground (arith, product_for-id j p ps)

-- ===== src/Seed/Memory/Find.antt =====
-- How the repositories in memory (Memory) find a row: by a test that is decided for each.
use nodejs_pro_task.Base.{
  Among, ℕ, String, ◌≡◌, refl, sym, ap, subst, ◌∙◌, ◌⊎◌, inl, inr, arith, eq_iff, str_eq, Bool,
  true, false, Option, none, some, List, [], ◌∷◌, ◌==◌, eq_of_==,
}
use nodejs_pro_task.Errors.{ok, ok_injective}
use nodejs_pro_task.Schema.{User, Order, OrderStatus, created, OrderItem}
use nodejs_pro_task.Seed.Contract.{Finds, IsOpen}

module _ {A : Type 0} (p : A → Type 0) where
  pub Finds-behind :
      (x : A) (xs : List A) → ¬ p x → (r : Option A) → Finds p xs r → Finds p (x ∷ xs) r
  Finds-behind x xs fails none absent =
      λ a there h. elim there [ inl same ↦ fails (subst p same h) | inr behind ↦ absent a behind h ]
  Finds-behind x xs fails (some b) (there, holds) = (inr there, holds)

  -- The first row that meets the conditions, with what is known of it.
  abbrev pub locate : ((a : A) → p a ⊎ ¬ p a) → (rows : List A) → (r : Option A) × Finds p rows r
  locate test [] = (none, λ a there _. there)
  locate test (x ∷ xs) =
      let (r, found) = locate test xs in
      elim (test x) [
        | inl holds ↦ (some x, (inl refl, holds))
        | inr fails ↦ (r, Finds-behind x xs fails r found)
      ]

  pub located :
      (test : (a : A) → p a ⊎ ¬ p a) (rows : List A) (r : Option A)
      → ok (locate test rows).0 ≡ ok r
      → Finds p rows r
  located test rows r h = subst (Finds p rows) (ok_injective h) (locate test rows).1

pub eq_of_str_eq : (s t : String) → str_eq s t ≡ true → s ≡ t
eq_of_str_eq s t h = ground (arith, eq_iff s t)

pub ne_of_str_eq : (s t : String) → str_eq s t ≡ false → ¬ (s ≡ t)
ne_of_str_eq s t h e = ground (arith, eq_iff s t)

abbrev pub by_test : (s t : String) (b : Bool) → str_eq s t ≡ b → (s ≡ t) ⊎ ¬ (s ≡ t)
by_test s t true e = inl (eq_of_str_eq s t e)
by_test s t false n = inr (ne_of_str_eq s t n)

abbrev pub same_text : (s t : String) → (s ≡ t) ⊎ ¬ (s ≡ t)
same_text s t = by_test s t (str_eq s t) refl

abbrev pub is_created : OrderStatus → Bool
is_created created = true
is_created _ = false

pub created_of_test : (s : OrderStatus) → is_created s ≡ true → s ≡ created
created_of_test s h = ground arith

pub test_of_created : (s : OrderStatus) → is_created s ≡ false → ¬ (s ≡ created)
test_of_created s h e = ground arith

pub IsOpen-user : (user : ℕ) (o : Order) → (o.user_id == user) ≡ false → ¬ IsOpen user o
IsOpen-user user o n (e, _) = ground arith

abbrev pub open_by_tests :
    (user : ℕ) (o : Order) (b c : Bool)
    → is_created o.status ≡ b
    → (o.user_id == user) ≡ c
    → IsOpen user o ⊎ ¬ IsOpen user o
open_by_tests user o true true e k = inl (eq_of_== o.user_id user k, created_of_test o.status e)
open_by_tests user o true false e k = inr (IsOpen-user user o k)
open_by_tests user o false c e k = inr (λ (_, h). test_of_created o.status e h)

abbrev pub test_open : (user : ℕ) (o : Order) → IsOpen user o ⊎ ¬ IsOpen user o
test_open user o = open_by_tests user o (is_created o.status) (o.user_id == user) refl refl

abbrev pub prepend_if : Bool → OrderItem → List OrderItem → List OrderItem
prepend_if true i is = i ∷ is
prepend_if false i is = is

abbrev pub items_of : ℕ → List OrderItem → List OrderItem
items_of o [] = []
items_of o (i ∷ is) = prepend_if (i.order_id == o) i (items_of o is)

-- The list has the items of the order, and no other.
abbrev pub HoldsItems : ℕ → OrderItem → List OrderItem → List OrderItem → Type 0
HoldsItems o i is picked =
    (Among i picked → Among i is × (i.order_id ≡ o))
    × (Among i is → i.order_id ≡ o → Among i picked)

Among-prepend_if :
    (o : ℕ) (i j : OrderItem) (is picked : List OrderItem) (b : Bool)
    → (j.order_id == o) ≡ b
    → HoldsItems o i is picked
    → HoldsItems o i (j ∷ is) (prepend_if b j picked)
Among-prepend_if o i j is picked true e (sound, complete) = (
  λ h. elim h [
    | inl same ↦ (inl same, ap (λ (x : OrderItem). x.order_id) same ∙ eq_of_== j.order_id o e)
    | inr there ↦ let (k, of_order) = sound there in (inr k, of_order)
  ],
  λ h of_order. elim h [ inl same ↦ inl same | inr there ↦ inr (complete there of_order) ],
)
Among-prepend_if o i j is picked false e (sound, complete) = (
  λ h. let (k, of_order) = sound h in (inr k, of_order),
  λ h of_order. elim h [
    | inl same ↦
        let of_order' : j.order_id ≡ o = ap (λ (x : OrderItem). x.order_id) (sym same) ∙ of_order in
        absurd (ground arith)
    | inr there ↦ complete there of_order
  ],
)

pub Among-items_of :
    (o : ℕ) (i : OrderItem) (is : List OrderItem) → HoldsItems o i is (items_of o is)
Among-items_of o i [] = (λ h. absurd h, λ h _. h)
Among-items_of o i (j ∷ is) =
    Among-prepend_if o i j is (items_of o is) (j.order_id == o) refl (Among-items_of o i is)

-- No two users have one address.
abbrev pub Unique : List User → Type 0
Unique us = (u v : User) → Among u us → Among v us → u.email ≡ v.email → u ≡ v

pub Unique-cons :
    (u : User) (us : List User)
    → Finds (λ v. v.email ≡ u.email) us none
    → Unique us
    → Unique (u ∷ us)
Unique-cons u us fresh unique x y (inl a) (inl b) e = a ∙ sym b
Unique-cons u us fresh unique x y (inl a) (inr b) e =
    absurd (fresh y b (sym e ∙ ap (λ v. v.email) a))
Unique-cons u us fresh unique x y (inr a) (inl b) e = absurd (fresh x a (e ∙ ap (λ v. v.email) b))
Unique-cons u us fresh unique x y (inr a) (inr b) e = unique x y a b e

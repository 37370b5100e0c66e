-- ===== src/Base/Lists.antt =====
-- Lists of keys over the native numbers.
use Prim.Native.Nat.{ℕ, zero, suc, ◌+◌, ◌≤◌}
use mathlib.Core.Path.{◌≡◌, refl, ap, ◌∙◌}
use mathlib.Core.Logic.{◌⊎◌}
use mathlib.Core.Bool.{Bool, true, false, ◌||◌, ◌&&◌, not}
use mathlib.Core.List.{List, [], ◌∷◌, ◌++◌, map}
use native.Mathlib.Omega.{arith}
use nodejs_pro_task.Base.Tests.{◌==◌, if◌then◌else◌}

module _ {ℓ} {A : Type ℓ} where
  abbrev pub length : List A → ℕ
  length [] = 0
  length (x ∷ xs) = suc (length xs)

  pub length-append : (xs ys : List A) → length (xs ++ ys) ≡ length xs + length ys
  length-append [] ys = omega arith
  length-append (x ∷ xs) ys = omega (arith, length-append xs ys)

pub length-map {ℓ κ} :
    {A : Type ℓ} {B : Type κ} (f : A → B) (xs : List A) → length (map f xs) ≡ length xs
length-map f [] = refl
length-map f (x ∷ xs) = omega (arith, length-map f xs)

abbrev pub contains : List ℕ → ℕ → Bool
contains [] a = false
contains (x ∷ xs) a = x == a || contains xs a

-- No key stands twice in the list.
abbrev pub distinct : List ℕ → Bool
distinct [] = true
distinct (x ∷ xs) = not (contains xs x) && distinct xs

abbrev remove_one : ℕ → List ℕ → List ℕ
remove_one a [] = []
remove_one a (x ∷ xs) = if x == a then xs else x ∷ remove_one a xs

length-remove_one :
    (a : ℕ) (xs : List ℕ) → contains xs a ≡ true → suc (length (remove_one a xs)) ≡ length xs
length-remove_one a [] h = ground arith
length-remove_one a (x ∷ xs) h = ground (arith, length-remove_one a xs)

contains-remove_one :
    (a b : ℕ) (xs : List ℕ) → (a == b) ≡ false → contains (remove_one a xs) b ≡ contains xs b
contains-remove_one a b [] h = refl
contains-remove_one a b (x ∷ xs) h = ground (arith, contains-remove_one a b xs h)

distinct_of_remove_one :
    (a : ℕ) (xs : List ℕ)
    → contains (remove_one a xs) a ≡ false
    → distinct (remove_one a xs) ≡ true
    → distinct xs ≡ true
distinct_of_remove_one a [] h k = refl
distinct_of_remove_one a (x ∷ xs) h k =
    ground (arith, distinct_of_remove_one a xs, contains-remove_one a x xs)

-- Every key of the first list is in the second.
abbrev pub Within : List ℕ → List ℕ → Type 0
Within xs ys = (a : ℕ) → contains xs a ≡ true → contains ys a ≡ true

Within-remove_one :
    (q : ℕ) (qs ids : List ℕ)
    → contains qs q ≡ false
    → Within (q ∷ qs) ids
    → Within qs (remove_one q ids)
Within-remove_one q qs ids fresh w a h = ground (arith, w a, contains-remove_one q a ids)

-- Distinct keys taken from a list that is no longer than they are exhaust it.
pub Within-full :
    (qs ids : List ℕ)
    → distinct qs ≡ true
    → Within qs ids
    → length qs ≡ length ids
    → (distinct ids ≡ true) × Within ids qs
Within-full [] [] d w e = (refl, λ a h. h)
Within-full [] (x ∷ ids) d w e = absurd (omega arith)
Within-full (q ∷ qs) ids d w e =
    let held = w q (ground arith) in
    let fresh : contains qs q ≡ false = ground arith in
    let (d', w') =
      Within-full qs (remove_one q ids) (ground arith) (Within-remove_one q qs ids fresh w)
        (omega (arith, length-remove_one q ids held)) in
    (
      distinct_of_remove_one q ids (ground (arith, w' q)) d',
      λ a h. ground (arith, w' a, contains-remove_one q a ids),
    )

-- Distinct keys are no more than the keys of a list that has them all.
pub Within-length : (qs ids : List ℕ) → distinct qs ≡ true → Within qs ids → length qs ≤ length ids
Within-length [] ids d w = omega arith
Within-length (q ∷ qs) ids d w =
    let held = w q (ground arith) in
    let fresh : contains qs q ≡ false = ground arith in
    let shorter =
      Within-length qs (remove_one q ids) (ground arith) (Within-remove_one q qs ids fresh w) in
    omega (arith, length-remove_one q ids held, shorter)

module _ {ℓ} {A : Type ℓ} where
  abbrev pub take : ℕ → List A → List A
  take n [] = []
  take zero (x ∷ xs) = []
  take (suc n) (x ∷ xs) = x ∷ take n xs

  abbrev pub drop : ℕ → List A → List A
  drop n [] = []
  drop zero (x ∷ xs) = x ∷ xs
  drop (suc n) (x ∷ xs) = drop n xs

  pub take-add : (a b : ℕ) (xs : List A) → take (a + b) xs ≡ take a xs ++ take b (drop a xs)
  take-add a b [] = refl
  take-add zero b (x ∷ xs) = ap (λ n. take n (x ∷ xs)) (omega arith)
  take-add (suc a) b (x ∷ xs) =
      let e : suc a + b ≡ suc (a + b) = omega arith in
      ap (λ n. take n (x ∷ xs)) e ∙ ap (λ ys. x ∷ ys) (take-add a b xs)

pub map-take {ℓ κ} :
    {A : Type ℓ} {B : Type κ} (f : A → B) (n : ℕ) (xs : List A)
    → map f (take n xs) ≡ take n (map f xs)
map-take f n [] = refl
map-take f zero (x ∷ xs) = refl
map-take f (suc n) (x ∷ xs) = ap (λ ys. f x ∷ ys) (map-take f n xs)

pub map-drop {ℓ κ} :
    {A : Type ℓ} {B : Type κ} (f : A → B) (n : ℕ) (xs : List A)
    → map f (drop n xs) ≡ drop n (map f xs)
map-drop f n [] = refl
map-drop f zero (x ∷ xs) = refl
map-drop f (suc n) (x ∷ xs) = map-drop f n xs

pub map-append {ℓ κ} :
    {A : Type ℓ} {B : Type κ} (f : A → B) (xs ys : List A) → map f (xs ++ ys) ≡ map f xs ++ map f ys
map-append f [] ys = refl
map-append f (x ∷ xs) ys = ap (λ zs. f x ∷ zs) (map-append f xs ys)

pub length-take {ℓ} : {A : Type ℓ} (n : ℕ) (xs : List A) → length (take n xs) ≤ n
length-take n [] = ground arith
length-take zero (x ∷ xs) = ground arith
length-take (suc n) (x ∷ xs) = let rest = length-take n xs in ground arith

module _ {A : Type 0} where
  -- The element stands in the list.
  abbrev pub Among : A → List A → Type 0
  Among a [] = ⊥
  Among a (x ∷ xs) = (a ≡ x) ⊎ Among a xs

-- ===== src/Migrations/Catalog/Lists.antt =====
-- Searches and changes in the lists of the catalog (src/migrations).
use nodejs_pro_task.Base.{
  ℕ, zero, suc, String, Bool, true, false, ◌&&◌, ◌||◌, Option, none, some, List, [], ◌∷◌,
  if◌then◌else◌,
}
use nodejs_pro_task.Errors.{driver, Result, ok, err}

module _ {A : Type 0} where
  abbrev pub any : (A → Bool) → List A → Bool
  any p [] = false
  any p (x ∷ xs) = p x || any p xs

  abbrev pub all : (A → Bool) → List A → Bool
  all p [] = true
  all p (x ∷ xs) = p x && all p xs

  abbrev pub keep : (A → Bool) → List A → List A
  keep p [] = []
  keep p (x ∷ xs) = if p x then x ∷ keep p xs else keep p xs

  abbrev pub repeat : ℕ → A → List A
  repeat zero a = []
  repeat (suc n) a = a ∷ repeat n a

  abbrev pub find : (A → Bool) → List A → Option A
  find p [] = none
  find p (x ∷ xs) = if p x then some x else find p xs

abbrev then_cons : {A : Type 0} → Result A → Result (List A) → Result (List A)
then_cons (err e) r = err e
then_cons (ok a) (err e) = err e
then_cons (ok a) (ok l) = ok (a ∷ l)

-- The first element that the test holds of is changed; there is an error if there is none.
abbrev pub change_first :
    {A : Type 0} → String → (A → Bool) → (A → Result A) → List A → Result (List A)
change_first code p f [] = err (driver code)
change_first code p f (x ∷ xs) =
    let rest = change_first code p f xs in
    if p x then then_cons (f x) (ok xs) else then_cons (ok x) rest

-- ===== src/Errors.antt =====
-- src/common/errors.ts: the domain errors, with the code, status, message and details of each; and
-- the exceptions that the program's methods can end with.
use nodejs_pro_task.Base.{ℕ, String, ◌≡◌, refl, ◌⊎◌, inl, inr, Option, none, some, List, [], ◌∷◌}
use nodejs_pro_task.Base.Int.{ℤ}
use Prim.Native.String.{◌++◌}

-- A property of `details?: Record<string, unknown>`, for the values that the program puts there.
pub data Value : Type 0 where
  undefined : Value
  num : ℤ → Value
  uuid : ℕ → Value
  text : String → Value
  uuids : List ℕ → Value
  roles : List String → Value
  texts : List String → Value

abbrev pub Details : Type 0
Details = List (String × Value)

pub data DomainError : Type 0 where
  failed_to_create_order : DomainError
  cannot_find_products : ℤ → Option (List ℕ) → DomainError
  not_enough_items_in_stock : ℕ → ℤ → ℤ → DomainError
  entity_not_found : String → Details → DomainError
  duplicate_entity_creation : String → Details → DomainError
  incorrect_password : Option Details → DomainError

unfoldable pub code : DomainError → String
code failed_to_create_order = "FAILED_TO_CREATE_ORDER"
code (cannot_find_products _ _) = "CANNOT_FIND_PRODUCTS"
code (not_enough_items_in_stock _ _ _) = "NOT_ENOUGH_ITEMS_IN_STOCK"
code (entity_not_found _ _) = "CANNOT_FIND_ENTITY"
code (duplicate_entity_creation _ _) = "DUPLICATE_ENTITY_CREATION"
code (incorrect_password _) = "INCORRECT_PASSWORD"

unfoldable pub http_status : DomainError → ℕ
http_status failed_to_create_order = 500
http_status (cannot_find_products _ _) = 404
http_status (not_enough_items_in_stock _ _ _) = 409
http_status (entity_not_found _ _) = 404
http_status (duplicate_entity_creation _ _) = 409
http_status (incorrect_password _) = 401

-- The message that each constructor hands to `super`.
unfoldable pub message : DomainError → String
message failed_to_create_order = "Failed to create order"
message (cannot_find_products _ _) = "Some products can not be found"
message (not_enough_items_in_stock _ _ _) = "Product does not have enough of stock"
message (entity_not_found name _) = "Cannot find entity '" ++ name ++ "'"
message (duplicate_entity_creation name _) = "Such '" ++ name ++ "' entity already exists"
message (incorrect_password _) = "Incorrect password"

-- `undefined` without the identifiers.
abbrev missing_ids : Option (List ℕ) → Value
missing_ids none = undefined
missing_ids (some ids) = uuids ids

unfoldable pub details : DomainError → Option Details
details failed_to_create_order = some []
details (cannot_find_products n ids) =
    some (("missingProductsCount", num n) ∷ ("missingProductIds", missing_ids ids) ∷ [])
details (not_enough_items_in_stock id asked stock) =
    some (("productId", uuid id) ∷ ("askedQty", num asked) ∷ ("stock", num stock) ∷ [])
details (entity_not_found name more) = some (("entityName", text name) ∷ more)
details (duplicate_entity_creation name more) = some (("entityName", text name) ∷ more)
details (incorrect_password more) = more

-- What Nest's `HttpException.getResponse` returns, for the exceptions that the program throws: a
-- string, or an object with the properties that the filter reads.
pub data Message : Type 0 where
  one : String → Message
  many : List String → Message

pub data HttpResponse : Type 0 where
  string : String → HttpResponse
  object : Option String → Option Message → Option Details → HttpResponse

pub record HttpException : Type 0 where
  pub status : ℕ
  pub response : HttpResponse

-- `driver` is an error of the database driver, with its `code`; `plain` is `new Error(message)`;
-- `suppressed` is the `SuppressedError` of an `await using` block whose disposal fails too.
pub data Exception : Type 0 where
  domain : DomainError → Exception
  http : HttpException → Exception
  driver : String → Exception
  plain : String → Exception
  suppressed : Exception → Exception → Exception

pub data Result {ℓ} (A : Type ℓ) : Type ℓ where
  ok : A → Result A
  err : Exception → Result A

pub Result-cases {ℓ} :
    {A : Type ℓ} (r : Result A) → ((a : A) × (r ≡ ok a)) ⊎ ((e : Exception) × (r ≡ err e))
Result-cases (ok a) = inl (a, refl)
Result-cases (err e) = inr (e, refl)

pub ok_injective {ℓ} : {A : Type ℓ} {a b : A} → ok a ≡ ok b → a ≡ b
ok_injective h = cc

-- ===== src/Auth/Users.antt =====
-- src/users/users.service.ts on a table of users, and src/auth/password.service.ts.
use nodejs_pro_task.Base.{ℕ, String, ◌≡◌, Bool, true, Option, some, [], ◌∷◌, if◌then◌else◌}
use nodejs_pro_task.Errors.{text, domain, duplicate_entity_creation, Details, Result, ok, err}
use nodejs_pro_task.Exec.{Exec}
use nodejs_pro_task.Schema.{User, user}
use nodejs_pro_task.Orders.Repository.{is_duplicate_error}

-- `SignUpDto`, and `LogInDto`.
pub record Credentials : Type 0 where
  pub email : String
  pub password : String

-- `{ ...dto }`
abbrev pub spread : Credentials → Details
spread c = ("email", text c.email) ∷ ("password", text c.password) ∷ []

pub record Accounts : Type 1 where
  pub Db : Type 0
  pub users : Db → ℕ → Option User
  -- `save` of an address and a hash, `findOneBy` and `findOne`.
  pub save : String → String → Db → Result (User × Db)
  pub find_by_id : ℕ → Db → Result (Option User)
  pub find_by_email : String → Db → Result (Option User)
  -- bcrypt: the first argument of `hash` stands for the random salt.
  pub hash : ℕ → String → Result String
  pub compare : String → String → Result Bool

module _ (A : Accounts) where
  open A use {Db, users}

  -- What the code relies on: the row of a new user has the default role, and is found by its address,
  -- which is unique, and by its identifier; a password matches each hash of it.
  pub record Laws : Type 0 where
    pub save-ok :
        (email hashed : String) (d d' : Db) (u : User)
        → A.save email hashed d ≡ ok (u, d')
        → (u.email ≡ email) × (u.password ≡ hashed) × (u.role ≡ user)
    pub save-found :
        (email hashed : String) (d d' : Db) (u : User) (r : Option User)
        → A.save email hashed d ≡ ok (u, d')
        → A.find_by_email email d' ≡ ok r
        → r ≡ some u
    pub save-found_by_id :
        (email hashed : String) (d d' : Db) (u : User) (r : Option User)
        → A.save email hashed d ≡ ok (u, d')
        → A.find_by_id u.id d' ≡ ok r
        → r ≡ some u
    pub find_by_email-some :
        (email : String) (d : Db) (u : User)
        → A.find_by_email email d ≡ ok (some u)
        → (users d u.id ≡ some u) × (u.email ≡ email)
    pub compare-hash :
        (salt : ℕ) (password hashed : String)
        → A.hash salt password ≡ ok hashed
        → A.compare password hashed ≡ ok true

  -- `UsersService.create`
  unfoldable pub create_user : Credentials → String → Exec Db User
  create_user dto hashed d = elim (A.save dto.email hashed d) [
    | ok (u, d') ↦ (ok u, d')
    | err e ↦
        if is_duplicate_error e
        then (err (domain (duplicate_entity_creation "User" (spread dto))), d)
        else (err e, d)
  ]

  -- `PasswordService.hash` and `verify`
  abbrev pub hash_password : ℕ → String → Result String
  hash_password salt value = A.hash salt value

  abbrev pub verify_password : String → String → Result Bool
  verify_password hashed candidate = A.compare candidate hashed

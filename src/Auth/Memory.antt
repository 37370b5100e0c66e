-- ===== src/Auth/Memory.antt =====
-- Accounts in memory, and tokens for one user, which show that the contracts can be met.
use nodejs_pro_task.Base.{
  ℕ, suc, String, ◌<◌, ◌≡◌, refl, sym, ap, ◌∙◌, subst, inl, inr, Bool-cases, Bool, true, false,
  ◌&&◌, Option, none, some, List, [], ◌∷◌, arith, ◌==◌, ==-refl, str_eq, eq_iff, if◌then◌else◌,
  length, Option-cases,
}
use nodejs_pro_task.Errors.{driver, plain, Result, ok, err, ok_injective}
use nodejs_pro_task.Schema.{User, UserRole, user, admin}
use nodejs_pro_task.Auth.Users.{Accounts, Laws}
use nodejs_pro_task.Auth.Service.{JwtPayloadDto, Tokens, Verifies, carried}

-- A user's identifier is the row's place.
pub record Account : Type 0 where
  pub email : String
  pub password : String

abbrev user_of : ℕ → Account → User
user_of i a = record {
  id = i;
  email = a.email;
  password = a.password;
  role = user;
  created_at = 0;
  updated_at = 0;
}

abbrev user_at : List Account → ℕ → Option User
user_at [] i = none
user_at (a ∷ rows) i = if length rows == i then some (user_of (length rows) a) else user_at rows i

abbrev user_by : String → List Account → Option User
user_by email [] = none
user_by email (a ∷ rows) =
    if str_eq a.email email then some (user_of (length rows) a) else user_by email rows

abbrev save_user : String → String → List Account → Result (User × List Account)
save_user email hashed rows = elim (user_by email rows) [
  | some _ ↦ err (driver "23505")
  | none ↦ ok (
    user_of (length rows) (record { email = email; password = hashed }),
    record { email = email; password = hashed } ∷ rows,
  )
]

-- A hash that is the password itself.
abbrev pub accounts : Accounts
accounts = record {
  Db = List Account;
  users = user_at;
  save = save_user;
  find_by_id = λ i rows. ok (user_at rows i);
  find_by_email = λ email rows. ok (user_by email rows);
  hash = λ salt password. ok password;
  compare = λ candidate hashed. ok (str_eq candidate hashed);
}

user_by-at :
    (email : String) (rows : List Account) (u : User)
    → user_by email rows ≡ some u
    → (user_at rows u.id ≡ some u) × (u.email ≡ email) × (u.id < length rows)
user_by-at email [] u h = absurd (ground arith)
user_by-at email (a ∷ rows) u h = elim (Bool-cases (str_eq a.email email)) [
  | inl y ↦
      let same : user_of (length rows) a ≡ u = ground arith in
      subst
        (λ v. (user_at (a ∷ rows) v.id ≡ some v) × (v.email ≡ email) × (v.id < suc (length rows)))
        same (ground arith, (eq_iff a.email email).0 y, omega arith)
  | inr n ↦ let (s, e, l) = user_by-at email rows u (ground arith) in (ground arith, e, omega arith)
]

save_user-cases :
    (email hashed : String) (rows rows' : List Account) (u : User)
    → save_user email hashed rows ≡ ok (u, rows')
    → (user_of (length rows) (record { email = email; password = hashed }) ≡ u)
      × (record { email = email; password = hashed } ∷ rows ≡ rows')
save_user-cases email hashed rows rows' u h = elim (Option-cases (user_by email rows)) [
  | inl n ↦ (ground arith, ground arith)
  | inr (v, e) ↦ absurd (ground arith)
]

found_again :
    (email hashed : String) (rows rows' : List Account) (u : User) (r : Option User)
    → save_user email hashed rows ≡ ok (u, rows')
    → ok (user_by email rows') ≡ ok r
    → r ≡ some u
found_again email hashed rows rows' u r h f =
    let (e, g) = save_user-cases email hashed rows rows' u h in
    let t : str_eq email email ≡ true = (eq_iff email email).1 refl in
    sym (ok_injective f)
    ∙ ap (user_by email) (sym g)
    ∙ ap
        (λ b.
          if b
          then some (user_of (length rows) (record { email = email; password = hashed }))
          else user_by email rows)
        t
    ∙ ap some e

found_by_id :
    (email hashed : String) (rows rows' : List Account) (u : User) (r : Option User)
    → save_user email hashed rows ≡ ok (u, rows')
    → ok (user_at rows' u.id) ≡ ok r
    → r ≡ some u
found_by_id email hashed rows rows' u r h f =
    let (e, g) = save_user-cases email hashed rows rows' u h in
    let new : Account = record { email = email; password = hashed } in
    let there : user_at (new ∷ rows) (length rows) ≡ some (user_of (length rows) new) =
      ground (arith, ==-refl (length rows)) in
    sym (ok_injective f) ∙ (λ i. user_at (sym g i) (sym e i).id) ∙ there ∙ ap some e

pub accounts-Laws : Laws accounts
accounts-Laws = record {
  save-ok = λ email hashed rows rows' u h.
      let (e, _) = save_user-cases email hashed rows rows' u h in
      ((λ i. (sym e i).email), (λ i. (sym e i).password), (λ i. (sym e i).role));
  save-found = found_again;
  save-found_by_id = found_by_id;
  find_by_email-some =
      λ email rows u h. let (s, e, _) = user_by-at email rows u (ground arith) in (s, e);
  compare-hash = λ salt password hashed h.
      let same : password ≡ hashed = ok_injective h in ap ok ((eq_iff password hashed).1 same);
}

-- The user that the tokens are for.
abbrev pub alice : JwtPayloadDto
alice = record { sub = 0; email = "alice@mail.com"; roles = user ∷ [] }

abbrev only_user : List UserRole → Bool
only_user [] = false
only_user (user ∷ []) = true
only_user (user ∷ r ∷ rs) = false
only_user (admin ∷ rs) = false

abbrev is_alice : JwtPayloadDto → Bool
is_alice p = (p.sub == 0) && (str_eq p.email "alice@mail.com" && only_user p.roles)

-- Tokens that name their user and are valid for good.
abbrev pub tokens : Tokens
tokens = record {
  at_secret = "access";
  rt_secret = ok "refresh";
  at_max_age = ok 3600;
  rt_max_age = ok 86400;
  sign = λ moment p. if is_alice p then ok "alice" else err (plain "unknown");
  sign_with = λ secret age moment p. if is_alice p then ok "alice" else err (plain "unknown");
  verify = λ secret moment t.
      if str_eq t "alice" then ok (carried alice) else err (plain "invalid token");
}

only_user_lem : (rs : List UserRole) → only_user rs ≡ true → rs ≡ user ∷ []
only_user_lem [] h = absurd (ground arith)
only_user_lem (user ∷ []) h = refl
only_user_lem (user ∷ r ∷ rs) h = absurd (ground arith)
only_user_lem (admin ∷ rs) h = absurd (ground arith)

is_alice_lem : (p : JwtPayloadDto) → is_alice p ≡ true → p ≡ alice
is_alice_lem p h =
    let e₁ : p.sub ≡ 0 = ground arith in
    let e₂ : p.email ≡ "alice@mail.com" = (eq_iff p.email "alice@mail.com").0 (ground arith) in
    let e₃ : p.roles ≡ user ∷ [] = only_user_lem p.roles (ground arith) in
    λ i. record { sub = e₁ i; email = e₂ i; roles = e₃ i }

signed :
    (p : JwtPayloadDto) (t : String)
    → (if is_alice p then ok "alice" else err (plain "unknown")) ≡ ok t
    → (if str_eq t "alice" then ok (carried alice) else err (plain "invalid token"))
      ≡ ok (carried p)
signed p t h = elim (Bool-cases (is_alice p)) [
  | inr n ↦ absurd (ground arith)
  | inl y ↦
      let named : "alice" ≡ t = ok_injective (ground arith) in
      ap (λ b. if b then ok (carried alice) else err (plain "invalid token"))
        ((eq_iff t "alice").1 (sym named))
      ∙ ap (λ q. ok (carried q)) (sym (is_alice_lem p y))
]

pub tokens-Verifies : Verifies tokens
tokens-Verifies = record {
  access = λ moment later age p t h e l m. signed p t h;
  refresh = λ secret age moment later p t h l m. signed p t h;
}

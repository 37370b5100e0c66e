-- ===== src/Auth/Handlers.antt =====
-- The handlers of src/auth/auth.controller.ts and src/users/users.controller.ts.
use nodejs_pro_task.Base.{ℕ, ◌*◌, String, ◌≡◌, Bool, true, Option, none, some, arith}
use nodejs_pro_task.Errors.{Result, ok, err}
use nodejs_pro_task.Exec.{Exec, pure, ◌>>=◌}
use nodejs_pro_task.Schema.{User, UserRole}
use nodejs_pro_task.Orders.Listing.{not_found}
use nodejs_pro_task.Auth.Users.{Credentials, Accounts, Laws}
use nodejs_pro_task.Auth.Sessions.{sign_up-saved}
use nodejs_pro_task.Auth.Service.{
  payload_of, JwtPayloadDto, TokenResponseDto, Tokens, login, sign_up, refresh_access_token,
}

-- `UserResponseDto`
pub record UserResponseDto : Type 0 where
  pub id : ℕ
  pub email : String
  pub role : UserRole
  pub created_at : ℕ

abbrev pub user_response : User → UserResponseDto
user_response u = record { id = u.id; email = u.email; role = u.role; created_at = u.created_at }

-- The cookie that a response sets; `sameSite` is "none", `maxAge` is in milliseconds.
pub record Cookie : Type 0 where
  pub name : String
  pub value : String
  pub http_only : Bool
  pub secure : Bool
  pub max_age : ℕ

abbrev pub refresh_cookie : String → ℕ → Cookie
refresh_cookie token age = record {
  name = "refreshToken";
  value = token;
  http_only = true;
  secure = true;
  max_age = age * 1000;
}

module _ (T : Tokens) (A : Accounts) where
  -- `AuthController.login`: the body of the response, and its cookie.
  unfoldable pub post_login : ℕ → Credentials → A.Db → Result (TokenResponseDto × Cookie)
  post_login moment dto d = elim (login T A moment dto d) [
    | err e ↦ err e
    | ok r ↦ elim T.rt_max_age [
      | err e ↦ err e
      | ok age ↦ ok (r, refresh_cookie r.refresh_token age)
    ]
  ]

  -- `AuthController.signUp`
  unfoldable pub post_sign_up : ℕ → Credentials → Exec A.Db UserResponseDto
  post_sign_up salt dto = do u ← sign_up T A salt dto; pure (user_response u)

  -- `AuthController.refreshAccessToken`, behind the guard of the cookie.
  abbrev pub post_refresh : ℕ → JwtPayloadDto → String → A.Db → Result TokenResponseDto
  post_refresh moment payload token d = refresh_access_token T A moment payload token d

  -- `UsersController.me`
  unfoldable pub me : JwtPayloadDto → A.Db → Result UserResponseDto
  me payload d = elim (A.find_by_id payload.sub d) [
    | err e ↦ err e
    | ok none ↦ err (not_found "User not found")
    | ok (some u) ↦ ok (user_response u)
  ]

module _ (T : Tokens) (A : Accounts) (laws : Laws A) where
  -- What a user reads of his account, with the payload that tokens for him carry, is what the sign-up has
  -- answered, when the database is as the sign-up has left it and answers.
  pub me-post_sign_up :
      (salt : ℕ) (dto : Credentials) (before d : A.Db) (u : User) (found : Option User)
      → sign_up T A salt dto before ≡ (ok u, d)
      → A.find_by_id u.id d ≡ ok found
      → ((post_sign_up T A salt dto before).0 ≡ ok (user_response u))
        × (me T A (payload_of u) d ≡ ok (user_response u))
  unfolding post_sign_up me
  me-post_sign_up salt dto before d u found h f =
      let (hashed, _, k) = sign_up-saved T A laws 0 dto d salt u before h in
      let same = laws.save-found_by_id dto.email hashed before d u found k f in
      let returned : (sign_up T A salt dto before).0 ≡ ok u = λ i. (h i).0 in
      (ground arith, ground arith)

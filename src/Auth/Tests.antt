-- ===== src/Auth/Tests.antt =====
-- A sign-up, a log-in, and requests for a public route, a route for everyone with an account, and one for
-- administrators, which the debug endpoint is.
use nodejs_pro_task.Base.{◌≡◌, refl, arith, true, none, some, [], ◌∷◌, if◌then◌else◌}
use nodejs_pro_task.Errors.{ok, err, domain, incorrect_password, text}
use nodejs_pro_task.Schema.{User, user, admin}
use nodejs_pro_task.Auth.Users.{Credentials, create_user}
use nodejs_pro_task.Auth.Service.{
  TokenResponseDto, payload_of, prepare_token_response, login, sign_up,
}
use nodejs_pro_task.Auth.Guards.{Route, admit, forbidden, is_public, roles_guard}
use nodejs_pro_task.Auth.Sessions.{login-admit, login-sign_up, sign_up-forbidden}
use nodejs_pro_task.Auth.Handlers.{me, post_sign_up, user_response, me-post_sign_up}
use nodejs_pro_task.Auth.Memory.{Account, accounts, accounts-Laws, tokens, tokens-Verifies}

abbrev alice_dto : Credentials
alice_dto = record { email = "alice@mail.com"; password = "Strong-pass1*" }

abbrev wrong_dto : Credentials
wrong_dto = record { email = "alice@mail.com"; password = "guess" }

abbrev alice_row : Account
alice_row = record { email = "alice@mail.com"; password = "Strong-pass1*" }

abbrev alice_user : User
alice_user = record {
  id = 0;
  email = "alice@mail.com";
  password = "Strong-pass1*";
  role = user;
  created_at = 0;
  updated_at = 0;
}

abbrev response : TokenResponseDto
response = record {
  access_token = "alice";
  refresh_token = "alice";
  token_type = "Bearer";
  expires_in = 3600;
}

abbrev my_orders : Route
my_orders = record {
  handler_public = none;
  class_public = none;
  handler_roles = none;
  class_roles = none;
}

abbrev debug_orders : Route
debug_orders = record my_orders { handler_roles = some (admin ∷ []) }

signed_up : sign_up tokens accounts 3 alice_dto [] ≡ (ok alice_user, alice_row ∷ [])
unfolding sign_up create_user
signed_up = refl

logged_in : login tokens accounts 100 alice_dto (alice_row ∷ []) ≡ ok response
unfolding login prepare_token_response
logged_in = refl

wrong_password :
    login tokens accounts 100 wrong_dto (alice_row ∷ [])
    ≡ err (
        domain (
          incorrect_password
            (some (("email", text "alice@mail.com") ∷ ("password", text "guess") ∷ []))))
unfolding login
wrong_password = refl

login-admit_example :
    (u : User) × (accounts.users (alice_row ∷ []) u.id ≡ some u)
    × (u.email ≡ "alice@mail.com")
    × (accounts.compare "Strong-pass1*" u.password ≡ ok true)
    × (admit tokens my_orders 200 (some "alice") ≡ (
        if roles_guard my_orders (some (payload_of u))
        then ok (some (payload_of u))
        else err forbidden))
unfolding is_public
login-admit_example =
    login-admit tokens accounts accounts-Laws 100 alice_dto (alice_row ∷ []) response my_orders 200
      tokens-Verifies logged_in refl (omega arith) (omega arith)

login-sign_up_example :
    (login tokens accounts 100 alice_dto (alice_row ∷ [])
      ≡ prepare_token_response tokens 100 alice_user)
    × (alice_user.role ≡ user)
login-sign_up_example =
    login-sign_up tokens accounts accounts-Laws 100 alice_dto (alice_row ∷ []) 3 alice_user []
      (some alice_user) signed_up refl

sign_up-forbidden_example : admit tokens debug_orders 200 (some "alice") ≡ err forbidden
unfolding is_public roles_guard
sign_up-forbidden_example =
    sign_up-forbidden tokens accounts accounts-Laws 100 alice_dto (alice_row ∷ []) 3 alice_user []
      (some alice_user) response debug_orders 200 tokens-Verifies signed_up refl logged_in refl refl
      (omega arith) (omega arith)

me-post_sign_up_example :
    ((post_sign_up tokens accounts 3 alice_dto []).0 ≡ ok (user_response alice_user))
    × (me tokens accounts (payload_of alice_user) (alice_row ∷ []) ≡ ok (user_response alice_user))
me-post_sign_up_example =
    me-post_sign_up tokens accounts accounts-Laws 3 alice_dto [] (alice_row ∷ []) alice_user
      (some alice_user) signed_up refl

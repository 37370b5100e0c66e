-- ===== src/Auth/Service.antt =====
-- src/auth/auth.service.ts: accounts and tokens.
use nodejs_pro_task.Base.{
  ℕ, String, ◌+◌, ◌≤◌, ◌<◌, ◌≡◌, true, false, Option, none, some, List, [], ◌∷◌,
}
use nodejs_pro_task.Errors.{
  text, uuid, roles, domain, entity_not_found, incorrect_password, Details, Result, ok, err,
}
use nodejs_pro_task.Exec.{Exec, lift, ◌>>=◌}
use nodejs_pro_task.Schema.{User, UserRole, user, admin}
use nodejs_pro_task.Auth.Users.{
  Credentials, spread, Accounts, create_user, hash_password, verify_password,
}

-- `JwtPayloadDto`
pub record JwtPayloadDto : Type 0 where
  pub sub : ℕ
  pub email : String
  pub roles : List UserRole

-- `JwtPayload`, what a verified token carries; `roles` can be missing.
pub record JwtPayload : Type 0 where
  pub sub : ℕ
  pub email : String
  pub roles : Option (List UserRole)

pub record TokenResponseDto : Type 0 where
  pub access_token : String
  pub refresh_token : String
  pub token_type : String
  pub expires_in : ℕ

-- `JwtService` as the module of authentication configures it, with the variables of the environment
-- that the code reads by `getOrThrow`. Signing and verification are at a moment, in seconds.
pub record Tokens : Type 0 where
  pub at_secret : String
  pub rt_secret : Result String
  pub at_max_age : Result ℕ
  pub rt_max_age : Result ℕ
  pub sign : ℕ → JwtPayloadDto → Result String
  pub sign_with : String → ℕ → ℕ → JwtPayloadDto → Result String
  pub verify : String → ℕ → String → Result JwtPayload

-- The payload that a token of this one carries.
abbrev pub carried : JwtPayloadDto → JwtPayload
carried p = record { sub = p.sub; email = p.email; roles = some p.roles }

-- A token is valid with its secret, until it expires.
pub record Verifies (T : Tokens) : Type 0 where
  pub access :
      (moment later age : ℕ) (p : JwtPayloadDto) (t : String)
      → T.sign moment p ≡ ok t
      → T.at_max_age ≡ ok age
      → moment ≤ later
      → later < moment + age
      → T.verify T.at_secret later t ≡ ok (carried p)
  pub refresh :
      (secret : String) (age moment later : ℕ) (p : JwtPayloadDto) (t : String)
      → T.sign_with secret age moment p ≡ ok t
      → moment ≤ later
      → later < moment + age
      → T.verify secret later t ≡ ok (carried p)

abbrev pub role_name : UserRole → String
role_name user = "user"
role_name admin = "admin"

abbrev pub role_names : List UserRole → List String
role_names [] = []
role_names (r ∷ rs) = role_name r ∷ role_names rs

-- `{ ...payload, refreshToken }`
abbrev pub spread_payload : JwtPayloadDto → String → Details
spread_payload p token =
    ("sub", uuid p.sub)
    ∷ ("email", text p.email)
    ∷ ("roles", roles (role_names p.roles))
    ∷ ("refreshToken", text token)
    ∷ []

-- The payload for a user.
abbrev pub payload_of : User → JwtPayloadDto
payload_of u = record { sub = u.id; email = u.email; roles = u.role ∷ [] }

module _ (T : Tokens) where
  unfoldable pub prepare_token_response : ℕ → User → Result TokenResponseDto
  prepare_token_response moment u = elim (T.sign moment (payload_of u)) [
    | err e ↦ err e
    | ok access ↦ elim T.rt_secret [
      | err e ↦ err e
      | ok secret ↦ elim T.rt_max_age [
        | err e ↦ err e
        | ok rt_age ↦ elim (T.sign_with secret rt_age moment (payload_of u)) [
          | err e ↦ err e
          | ok refresh ↦ elim T.at_max_age [
            | err e ↦ err e
            | ok at_age ↦ ok (record {
              access_token = access;
              refresh_token = refresh;
              token_type = "Bearer";
              expires_in = at_age;
            })
          ]
        ]
      ]
    ]
  ]

  module _ (A : Accounts) where
    -- `login`, after the user was looked for.
    abbrev pub log_in_as : ℕ → Credentials → Option User → Result TokenResponseDto
    log_in_as moment dto none = err (domain (entity_not_found "User" (spread dto)))
    log_in_as moment dto (some u) = elim (verify_password A u.password dto.password) [
      | err e ↦ err e
      | ok false ↦ err (domain (incorrect_password (some (spread dto))))
      | ok true ↦ prepare_token_response moment u
    ]

    unfoldable pub login : ℕ → Credentials → A.Db → Result TokenResponseDto
    login moment dto d = elim (A.find_by_email dto.email d) [
      | err e ↦ err e
      | ok found ↦ log_in_as moment dto found
    ]

    unfoldable pub sign_up : ℕ → Credentials → Exec A.Db User
    sign_up salt dto = do
      hashed ← lift (hash_password A salt dto.password)
      create_user A dto hashed

    unfoldable pub refresh_access_token :
        ℕ → JwtPayloadDto → String → A.Db → Result TokenResponseDto
    refresh_access_token moment payload token d = elim (A.find_by_id payload.sub d) [
      | err e ↦ err e
      | ok none ↦ err (domain (entity_not_found "User" (spread_payload payload token)))
      | ok (some u) ↦ prepare_token_response moment u
    ]

-- ===== src/Auth/Guards.antt =====
-- src/auth/jwt-auth.guard.ts, jwt.strategy.ts, roles.guard.ts and decorators.ts: what a request must
-- show to reach a route. src/app.module.ts has the two global guards in this order.
use nodejs_pro_task.Base.{
  ℕ, String, Bool, true, false, ◌||◌, Option, none, some, List, [], ◌∷◌, if◌then◌else◌,
}
use nodejs_pro_task.Errors.{Exception, http, object, one, Result, ok, err}
use nodejs_pro_task.Schema.{UserRole, user, admin}
use nodejs_pro_task.Auth.Service.{JwtPayload, JwtPayloadDto, Tokens}

-- The metadata of `Public` and `Roles` on a handler and on its class.
pub record Route : Type 0 where
  pub handler_public : Option Bool
  pub class_public : Option Bool
  pub handler_roles : Option (List UserRole)
  pub class_roles : Option (List UserRole)

-- `getAllAndOverride`: the first that is defined.
abbrev pub override : {A : Type 0} → Option A → Option A → Option A
override none b = b
override (some a) b = some a

unfoldable pub is_public : Route → Bool
is_public r = elim (override r.handler_public r.class_public) [ none ↦ false | some b ↦ b ]

-- Nest's `UnauthorizedException` and `ForbiddenException`.
abbrev pub unauthorized : Exception
unauthorized =
    http (record { status = 401; response = object none (some (one "Unauthorized")) none })

abbrev pub forbidden : Exception
forbidden =
    http (record { status = 403; response = object none (some (one "Forbidden resource")) none })

-- `JwtStrategy.validate`
abbrev pub validate : JwtPayload → JwtPayloadDto
validate p = record {
  sub = p.sub;
  email = p.email;
  roles = elim p.roles [ none ↦ [] | some rs ↦ rs ];
}

abbrev pub role_eq : UserRole → UserRole → Bool
role_eq user user = true
role_eq admin admin = true
role_eq user admin = false
role_eq admin user = false

abbrev pub includes : List UserRole → UserRole → Bool
includes [] r = false
includes (s ∷ ss) r = role_eq s r || includes ss r

-- `required.some((role) => req.user?.roles?.includes(role))`
abbrev pub any_included : List UserRole → List UserRole → Bool
any_included [] held = false
any_included (r ∷ rs) held = includes held r || any_included rs held

-- `RolesGuard.canActivate`, where the class's roles come first.
unfoldable pub roles_guard : Route → Option JwtPayloadDto → Bool
roles_guard r holder = elim (override r.class_roles r.handler_roles) [
  | none ↦ true
  | some required ↦ elim holder [ none ↦ false | some p ↦ any_included required p.roles ]
]

module _ (T : Tokens) where
  -- `JwtAuthGuard.canActivate`, with passport's strategy: the request's `user` afterwards.
  unfoldable pub jwt_auth_guard : Route → ℕ → Option String → Result (Option JwtPayloadDto)
  unfolding is_public
  jwt_auth_guard r moment bearer = if is_public r then ok none else elim bearer [
    | none ↦ err unauthorized
    | some token ↦ elim (T.verify T.at_secret moment token) [
      | err e ↦ err unauthorized
      | ok p ↦ ok (some (validate p))
    ]
  ]

  -- The guards of the application, one after the other.
  unfoldable pub admit : Route → ℕ → Option String → Result (Option JwtPayloadDto)
  unfolding roles_guard jwt_auth_guard
  admit r moment bearer = elim (jwt_auth_guard r moment bearer) [
    | err e ↦ err e
    | ok holder ↦ if roles_guard r holder then ok holder else err forbidden
  ]

  -- `JwtCookieAuthGuard.canActivate`: the request's `user` is what the refresh token carries.
  -- `get` of a secret that is not configured gives none, and then the module's own secret is taken.
  unfoldable pub jwt_cookie_auth_guard : ℕ → Option String → Result JwtPayload
  jwt_cookie_auth_guard moment none = err unauthorized
  jwt_cookie_auth_guard moment (some token) =
      let secret : String = elim T.rt_secret [ ok s ↦ s | err e ↦ T.at_secret ] in
      elim (T.verify secret moment token) [ ok p ↦ ok p | err e ↦ err unauthorized ]

-- ===== src/Auth/Sessions.antt =====
-- From an account to a route: what sign-up, log-in and the guards give together (src/auth, src/users).
use nodejs_pro_task.Base.{
  ℕ, String, ◌+◌, ◌≤◌, ◌<◌, ◌≡◌, sym, ap, ◌∙◌, inl, inr, Bool-cases, true, false, Option, none,
  some, [], ◌∷◌, arith, if◌then◌else◌, subst,
}
use nodejs_pro_task.Errors.{ok, err, Result-cases, ok_injective}
use nodejs_pro_task.Schema.{User, user}
use nodejs_pro_task.Orders.Repository.{is_duplicate_error}
use nodejs_pro_task.Auth.Users.{Credentials, Accounts, Laws, create_user}
use nodejs_pro_task.Auth.Service.{
  JwtPayloadDto, TokenResponseDto, Tokens, Verifies, carried, payload_of, prepare_token_response,
  login, sign_up,
}
use nodejs_pro_task.Auth.Guards.{Route, is_public, forbidden, roles_guard, jwt_auth_guard, admit}

module _ (T : Tokens) where
  -- The tokens of a response are signed for the user.
  pub record Issued (moment : ℕ) (u : User) (r : TokenResponseDto) : Type 0 where
    pub secret : String
    pub age : ℕ
    pub access : T.sign moment (payload_of u) ≡ ok r.access_token
    pub expires : T.at_max_age ≡ ok r.expires_in
    pub has_secret : T.rt_secret ≡ ok secret
    pub refresh : T.sign_with secret age moment (payload_of u) ≡ ok r.refresh_token

  pub prepare_token_response-Issued :
      (moment : ℕ) (u : User) (r : TokenResponseDto)
      → prepare_token_response T moment u ≡ ok r
      → Issued moment u r
  unfolding prepare_token_response
  prepare_token_response-Issued moment u r h = elim (Result-cases (T.sign moment (payload_of u))) [
    | inr (e, f) ↦ absurd (ground arith)
    | inl (access, f) ↦ elim (Result-cases T.rt_secret) [
      | inr (e, g) ↦ absurd (ground arith)
      | inl (secret, g) ↦ elim (Result-cases T.rt_max_age) [
        | inr (e, k) ↦ absurd (ground arith)
        | inl (age, k) ↦ elim (Result-cases (T.sign_with secret age moment (payload_of u))) [
          | inr (e, l) ↦ absurd (ground arith)
          | inl (refresh, l) ↦ elim (Result-cases T.at_max_age) [
            | inr (e, m) ↦ absurd (ground arith)
            | inl (at_age, m) ↦
                subst (Issued moment u)
                  (ok_injective
                    {a = record {
                      access_token = access;
                      refresh_token = refresh;
                      token_type = "Bearer";
                      expires_in = at_age;
                    }}
                    (ground arith))
                  (record {
                    secret = secret;
                    age = age;
                    access = f;
                    expires = m;
                    has_secret = g;
                    refresh = l;
                  })
          ]
        ]
      ]
    ]
  ]

  -- What the guards make of a request whose token carries a payload.
  admit-verified :
      (route : Route) (later : ℕ) (t : String) (p : JwtPayloadDto)
      → is_public route ≡ false
      → T.verify T.at_secret later t ≡ ok (carried p)
      → admit T route later (some t)
        ≡ (if roles_guard route (some p) then ok (some p) else err forbidden)
  unfolding admit jwt_auth_guard
  admit-verified route later t p closed h = ground arith

module _ (T : Tokens) (A : Accounts) (laws : Laws A) (moment : ℕ) (dto : Credentials)
    (d : A.Db) where
  -- The user that a log-in that returns has found.
  pub record LoggedIn (r : TokenResponseDto) : Type 0 where
    pub account : User
    pub stored : A.users d account.id ≡ some account
    pub addressed : account.email ≡ dto.email
    pub matched : A.compare dto.password account.password ≡ ok true
    pub issued : Issued T moment account r

  login-LoggedIn : (r : TokenResponseDto) → login T A moment dto d ≡ ok r → LoggedIn r
  unfolding login
  login-LoggedIn r h = elim (Result-cases (A.find_by_email dto.email d)) [
    | inr (e, f) ↦ absurd (ground arith)
    | inl (none, f) ↦ absurd (ground arith)
    | inl (some u, f) ↦ elim (Result-cases (A.compare dto.password u.password)) [
      | inr (e, g) ↦ absurd (ground arith)
      | inl (false, g) ↦ absurd (ground arith)
      | inl (true, g) ↦
          let (s, a) = laws.find_by_email-some dto.email d u f in
          record {
            account = u;
            stored = s;
            addressed = a;
            matched = g;
            issued = prepare_token_response-Issued T moment u r (ground arith);
          }
    ]
  ]

  -- A log-in that returns has found a user of the address whose password matches, and until its access
  -- token expires, a request with the token reaches a route that is not public exactly when the user's
  -- role is one that the route asks for, and the handler is then given that user.
  pub login-admit :
      (r : TokenResponseDto) (route : Route) (later : ℕ)
      → Verifies T
      → login T A moment dto d ≡ ok r
      → is_public route ≡ false
      → moment ≤ later
      → later < moment + r.expires_in
      → (u : User) × (A.users d u.id ≡ some u)
        × (u.email ≡ dto.email)
        × (A.compare dto.password u.password ≡ ok true)
        × (admit T route later (some r.access_token) ≡ (
            if roles_guard route (some (payload_of u))
            then ok (some (payload_of u))
            else err forbidden))
  login-admit r route later sound h closed since before =
      let l = login-LoggedIn r h in
      (
        l.account,
        l.stored,
        l.addressed,
        l.matched,
        admit-verified T route later r.access_token (payload_of l.account) closed (
            sound.access moment later r.expires_in (payload_of l.account) r.access_token
              l.issued.access l.issued.expires since before),
      )

  -- The row that a sign-up that returns has saved.
  pub sign_up-saved :
      (salt : ℕ) (u : User) (before : A.Db)
      → sign_up T A salt dto before ≡ (ok u, d)
      → (hashed : String) × (A.hash salt dto.password ≡ ok hashed)
        × (A.save dto.email hashed before ≡ ok (u, d))
  unfolding sign_up create_user
  sign_up-saved salt u before h = elim (Result-cases (A.hash salt dto.password)) [
    | inr (e, g) ↦ absurd (ground arith)
    | inl (hashed, g) ↦ elim (Result-cases (A.save dto.email hashed before)) [
      | inr (e, k) ↦ elim (Bool-cases (is_duplicate_error e)) [
        | inl y ↦ absurd (ground arith)
        | inr n ↦ absurd (ground arith)
      ]
      | inl ((u', d'), k) ↦
          let e₁ : u' ≡ u = ground arith in
          let e₂ : d' ≡ d = ground arith in (hashed, g, k ∙ (λ i. ok (e₁ i, e₂ i)))
    ]
  ]

  -- A user who has just signed up logs in with the same address and password: the log-in does what
  -- preparing the tokens for the new user does, and the new user's role is `user`.
  pub login-sign_up :
      (salt : ℕ) (u : User) (before : A.Db) (found : Option User)
      → sign_up T A salt dto before ≡ (ok u, d)
      → A.find_by_email dto.email d ≡ ok found
      → (login T A moment dto d ≡ prepare_token_response T moment u) × (u.role ≡ user)
  unfolding login
  login-sign_up salt u before found h f =
      let (hashed, g, k) = sign_up-saved salt u before h in
      let (a, p, r) = laws.save-ok dto.email hashed before d u k in
      let same = laws.save-found dto.email hashed before d u found k f in
      let matched : A.compare dto.password u.password ≡ ok true =
        ap (A.compare dto.password) p ∙ laws.compare-hash salt dto.password hashed g in
      (ground arith, r)

module _ (T : Tokens) (A : Accounts) (laws : Laws A) (moment : ℕ) (dto : Credentials)
    (d : A.Db) where
  -- A user who has just signed up is turned away from a route that asks for other roles than `user`,
  -- with the token of a log-in, as long as the token is valid.
  pub sign_up-forbidden :
      (salt : ℕ) (u : User) (before : A.Db) (found : Option User) (r : TokenResponseDto)
      (route : Route) (later : ℕ)
      → Verifies T
      → sign_up T A salt dto before ≡ (ok u, d)
      → A.find_by_email dto.email d ≡ ok found
      → login T A moment dto d ≡ ok r
      → is_public route ≡ false
      → roles_guard route (some (record { sub = u.id; email = u.email; roles = user ∷ [] })) ≡ false
      → moment ≤ later
      → later < moment + r.expires_in
      → admit T route later (some r.access_token) ≡ err forbidden
  sign_up-forbidden salt u before found r route later sound h f e closed refused since not_yet =
      let (prepared, role) = login-sign_up T A laws moment dto d salt u before found h f in
      let issued = prepare_token_response-Issued T moment u r (sym prepared ∙ e) in
      let no : roles_guard route (some (payload_of u)) ≡ false =
        ap (λ x. roles_guard route (some (record { sub = u.id; email = u.email; roles = x ∷ [] })))
          role
        ∙ refused in
      admit-verified T route later r.access_token (payload_of u) closed (
        sound.access moment later r.expires_in (payload_of u) r.access_token issued.access
          issued.expires since not_yet)
      ∙ ap (λ b. if b then ok (some (payload_of u)) else err forbidden) no

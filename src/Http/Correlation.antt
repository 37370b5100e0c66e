-- ===== src/Http/Correlation.antt =====
-- src/common/correlation-id.middleware.ts: the identifier that a request is followed by.
use nodejs_pro_task.Base.{
  ℕ, ◌≡◌, refl, inl, inr, Bool-cases, arith, Bool, true, false, ◌&&◌, ◌||◌, not, Option, none, some,
  leb, ◌==◌, if◌then◌else◌,
}
use Prim.Native.String.{String, [], ◌∷◌}
use Prim.Native.Char.{code}

-- A text as the condition of an `if`: the empty one is falsy.
abbrev pub truthy : String → Bool
truthy [] = false
truthy (c ∷ s) = true

-- The characters that `String.prototype.trim` takes off, by their numbers.
abbrev pub is_space : ℕ → Bool
is_space n =
    (leb 9 n && leb n 13)
    || (n == 32
        || (n == 160
            || (n == 5760
                || ((leb 8192 n && leb n 8202)
                    || (n == 8232
                        || (n == 8233
                            || (n == 8239 || (n == 8287 || (n == 12288 || n == 65279)))))))))

-- `text.trim().length > 0`
unfoldable pub has_visible : String → Bool
has_visible [] = false
has_visible (c ∷ s) = not (is_space (code c)) || has_visible s

-- What the middleware and the filter read of a request: the header `x-correlation-id`, and the
-- property `correlationId`.
pub record Request : Type 0 where
  pub header : Option String
  pub correlation_id : Option String

-- The identifier that is used, with the result of `uuidv4()` for a request that brings none.
unfoldable pub choose_id : String → Option String → String
choose_id fresh none = fresh
choose_id fresh (some incoming) = if has_visible incoming then incoming else fresh

-- `use`: the request as the handlers see it, and the header of the response.
unfoldable pub use_correlation_id : String → Request → Request × String
use_correlation_id fresh req =
    let id = choose_id fresh req.header in (record req { correlation_id = some id }, id)

truthy-visible : (s : String) → has_visible s ≡ true → truthy s ≡ true
unfolding has_visible
truthy-visible [] h = h
truthy-visible (c ∷ s) h = refl

pub truthy-choose_id :
    (fresh : String) (header : Option String)
    → truthy fresh ≡ true
    → truthy (choose_id fresh header) ≡ true
unfolding choose_id
truthy-choose_id fresh none h = h
truthy-choose_id fresh (some incoming) h = elim (Bool-cases (has_visible incoming)) [
  | inl v ↦ let t = truthy-visible incoming v in ground arith
  | inr n ↦ ground arith
]

-- ===== src/Http/Responses.antt =====
-- What a client can rely on in the response to a request that fails
-- (src/common/http-exception.filter.ts, src/common/correlation-id.middleware.ts).
use nodejs_pro_task.Base.{ℕ, String, ◌≡◌, refl, ◌∙◌, Option, true, none, some, arith}
use nodejs_pro_task.Errors.{
  Exception, domain, http, driver, plain, suppressed, string, object, HttpResponse, Message,
  Details,
}
use nodejs_pro_task.Http.Correlation.{Request, truthy, use_correlation_id, truthy-choose_id}
use nodejs_pro_task.Http.Filter.{
  object_body, code_of, message_of, catch_exception, correlation_id_of, http_body,
}

object_body-id :
    (status : ℕ) (id : String) (c : Option String) (m : Option Message) (d : Option Details)
    → (object_body status id c m d).correlation_id ≡ id
object_body-id status id none m d = refl
object_body-id status id (some c) none d = refl
object_body-id status id (some c) (some m) d = refl

http_body-id :
    (status : ℕ) (r : HttpResponse) (id : String) → (http_body status r id).correlation_id ≡ id
unfolding http_body
http_body-id status (string res) id = refl
http_body-id status (object c m d) id = object_body-id status id (code_of c) (message_of m) d

catch_exception-id :
    (e : Exception) (req : Request)
    → (catch_exception e req).1.correlation_id ≡ correlation_id_of req
unfolding catch_exception
catch_exception-id (domain e) req = refl
catch_exception-id (http e) req = http_body-id e.status e.response (correlation_id_of req)
catch_exception-id (driver c) req = refl
catch_exception-id (plain m) req = refl
catch_exception-id (suppressed e f) req = refl

-- The body of every error response has the identifier that the request's response header has, which
-- the middleware has chosen, and the identifier is not empty.
pub catch_exception-correlation_id :
    (fresh : String) (req : Request) (e : Exception)
    → truthy fresh ≡ true
    → let (seen, header) = use_correlation_id fresh req in
      ((catch_exception e seen).1.correlation_id ≡ header) × (truthy header ≡ true)
unfolding use_correlation_id correlation_id_of
catch_exception-correlation_id fresh req e h =
    let t = truthy-choose_id fresh req.header h in
    (catch_exception-id e (use_correlation_id fresh req).0 ∙ ground arith, t)

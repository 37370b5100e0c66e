-- ===== src/Http/Filter.antt =====
-- src/common/http-exception.filter.ts: the response to a request whose handler has thrown.
use nodejs_pro_task.Base.{ℕ, String, Option, none, some, List, [], ◌∷◌, leb, if◌then◌else◌}
use nodejs_pro_task.Errors.{
  texts, Details, code, http_status, message, details, Message, one, many, HttpResponse, string,
  object, Exception, domain, http, driver, plain, suppressed,
}
use nodejs_pro_task.Http.Correlation.{truthy, Request}
use Prim.Native.String.{◌++◌}

pub record ErrorBody : Type 0 where
  pub code : String
  pub message : String
  pub details : Option Details
  pub correlation_id : String

-- `a || b`, of a text that can be undefined.
abbrev pub or_else : Option String → String → String
or_else none d = d
or_else (some s) d = if truthy s then s else d

unfoldable pub correlation_id_of : Request → String
correlation_id_of req =
    or_else req.correlation_id (elim req.header [ none ↦ "unknown" | some h ↦ h ])

-- `String(texts)`: JavaScript joins an array with commas.
abbrev pub join : List String → String
join [] = ""
join (s ∷ []) = s
join (s ∷ t ∷ ts) = s ++ "," ++ join (t ∷ ts)

-- A property as a condition: an array is truthy, also an empty one.
abbrev pub code_of : Option String → Option String
code_of none = none
code_of (some c) = if truthy c then some c else none

abbrev pub message_of : Option Message → Option Message
message_of none = none
message_of (some (one m)) = if truthy m then some (one m) else none
message_of (some (many ms)) = some (many ms)

abbrev pub to_text : Message → String
to_text (one m) = m
to_text (many ms) = join ms

-- The body for a response of the framework, without a code of its own.
abbrev pub plain_message : Option Message → String
plain_message none = "Request failed"
plain_message (some (one m)) = m
plain_message (some (many ms)) = "Request failed"

abbrev pub plain_details : Option Message → Option Details
plain_details (some (many ms)) = some (("messages", texts ms) ∷ [])
plain_details _ = none

abbrev pub plain_code : ℕ → String
plain_code status = if leb 500 status then "INTERNAL_ERROR" else "REQUEST_FAILED"

abbrev pub plain_body : ℕ → String → Option Message → ErrorBody
plain_body status id said = record {
  code = plain_code status;
  message = plain_message said;
  details = plain_details said;
  correlation_id = id;
}

-- With a code and a message of its own the response is passed on.
abbrev pub object_body : ℕ → String → Option String → Option Message → Option Details → ErrorBody
object_body status id (some own) (some said) d = record {
  code = own;
  message = to_text said;
  details = d;
  correlation_id = id;
}
object_body status id (some own) none d = plain_body status id none
object_body status id none said d = plain_body status id said

unfoldable pub http_body : ℕ → HttpResponse → String → ErrorBody
http_body status (string res) id = record {
  code = plain_code status;
  message = res;
  details = none;
  correlation_id = id;
}
http_body status (object c m d) id = object_body status id (code_of c) (message_of m) d

abbrev pub internal_error : String → ErrorBody
internal_error id = record {
  code = "INTERNAL_ERROR";
  message = "Internal server error";
  details = none;
  correlation_id = id;
}

-- `catch`: the status and the body of the response.
unfoldable pub catch_exception : Exception → Request → ℕ × ErrorBody
unfolding correlation_id_of
catch_exception (domain e) req = (
  http_status e,
  record {
    code = code e;
    message = message e;
    details = details e;
    correlation_id = correlation_id_of req;
  },
)
catch_exception (http e) req = (e.status, http_body e.status e.response (correlation_id_of req))
catch_exception (driver c) req = (500, internal_error (correlation_id_of req))
catch_exception (plain m) req = (500, internal_error (correlation_id_of req))
catch_exception (suppressed e f) req = (500, internal_error (correlation_id_of req))

-- ===== src/Http/Tests.antt =====
-- Responses to concrete requests.
use nodejs_pro_task.Base.{◌≡◌, refl, true, none, some, [], ◌∷◌}
use nodejs_pro_task.Errors.{DomainError, domain, http, entity_not_found, many, object, text, texts}
use nodejs_pro_task.Http.Correlation.{Request, truthy, use_correlation_id, choose_id, has_visible}
use nodejs_pro_task.Http.Filter.{catch_exception, http_body, correlation_id_of}
use nodejs_pro_task.Http.Responses.{catch_exception-correlation_id}

abbrev silent : Request
silent = record { header = none; correlation_id = none }

abbrev blank : Request
blank = record { header = some "  "; correlation_id = none }

abbrev no_user : DomainError
no_user = entity_not_found "User" (("email", text "a@b.c") ∷ [])

abbrev no_order : DomainError
no_order = entity_not_found "Order" []

-- What the validation pipe throws for a body with two invalid properties.
invalid_body :
    catch_exception
      (http
        (record { status = 400; response = object none (some (many ("qty" ∷ "id" ∷ []))) none }))
      silent
    ≡ (
      400,
      record {
        code = "REQUEST_FAILED";
        message = "Request failed";
        details = some (("messages", texts ("qty" ∷ "id" ∷ [])) ∷ []);
        correlation_id = "unknown";
      },
    )
unfolding catch_exception http_body correlation_id_of
invalid_body = refl

blank_header_replaced : (use_correlation_id "fresh" blank).1 ≡ "fresh"
unfolding use_correlation_id choose_id has_visible
blank_header_replaced = refl

catch_exception-correlation_id_example :
    let (seen, header) = use_correlation_id "fresh" blank in
    ((catch_exception (domain no_user) seen).1.correlation_id ≡ header) × (truthy header ≡ true)
catch_exception-correlation_id_example =
    catch_exception-correlation_id "fresh" blank (domain no_user) refl

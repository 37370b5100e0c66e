-- ===== src/Http.antt =====
-- What surrounds the handlers of requests: src/common/correlation-id.middleware.ts and
-- src/common/http-exception.filter.ts.
mod Tests
pub mod Correlation
pub mod Filter
pub mod Responses
pub mod Refusals

-- ===== src/Http.antt =====
-- The HTTP part of the tutorial server in its last version (code/day29/http).
pub mod StringMap
pub mod HttpRequest
pub mod HttpContext
pub mod HttpResponse
pub mod HttpServer

-- ===== src/Api.antt =====
-- api: the middleware around each request, the handlers of exceptions, and the endpoints.
pub mod Server
pub mod Middleware
pub mod Schemas
pub mod Exceptions
pub mod Endpoints

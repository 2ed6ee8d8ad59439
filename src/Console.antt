-- ===== src/Console.antt =====
-- internal/httpapi: the sign-in of administrators.
pub mod Times
pub mod IdToken
pub mod SignIn

-- ===== src/Routes.antt =====
-- src/modules/auth/index.ts and src/modules/user/index.ts: the handlers behind the routes. A body is
-- one that has passed its schema; the guard of a protected route hands over the token's payload, or
-- the granted scope, and its answer is joined to the handler by `protect`.
pub mod Session
pub mod Public
pub mod Protected
pub mod UserRoutes
pub mod Endings

-- ===== src/Services.antt =====
-- What the program uses and does not implement, as interfaces: Postgres (one `Table` for each table
-- of src/db/schema/), Redis, the mail queue, hashing, random values, tokens and one-time codes.
-- The laws state the documented behaviour of a statement that returns, and that a statement of
-- Postgres which throws has changed nothing.
mod Tables
mod Cache
mod State
pub mod Triples
pub mod Actions
pub use Tables.*
pub use Cache.*
pub use State.*

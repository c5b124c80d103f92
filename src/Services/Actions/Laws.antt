-- ===== src/Services/Actions/Laws.antt =====
-- What each call does to the view of the state, by the interfaces' laws: when it returns (`-ok`) and
-- when it throws (`-err`).
mod Lift
mod Tables
mod Commands
pub use Tables.*
pub use Commands.*

-- ===== src/Floats.antt =====
-- C's `float`: the carrier and the operations that the program uses are a parameter of the model, and
-- what a proof relies on is a law of `FloatLaws`. `Fixed` is an instance that runs.
mod Ops
pub mod Fixed
pub use Ops.*

-- ===== src/Float.antt =====
-- Go's float64: the interface, and an instance of it for the examples.
mod Base
pub mod Fractions
pub use Base.{Float64, IsIeee}

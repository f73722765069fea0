-- ===== src/Rust.antt =====
-- What the program uses of Rust and its standard library: panics and results as values, byte texts
-- with checked slices, and the reading and printing of numbers.
pub mod Outcome
pub mod Text
pub mod Num

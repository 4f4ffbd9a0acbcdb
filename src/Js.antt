-- ===== src/Js.antt =====
-- The parts of the language and of its standard library that the SDK uses.
pub mod Number
pub mod Value
pub mod Runtime

-- ===== src/Py.antt =====
-- What the scripts use of Python itself: whole numbers, exceptions and list subscripts.
pub mod Int
pub mod Equality
pub mod Error
pub mod Dict
pub mod Seq
pub mod Text
pub mod Output

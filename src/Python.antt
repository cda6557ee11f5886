-- ===== src/Python.antt =====
-- The parts of Python that the program's code is written in: exceptions, objects that a method
-- changes, JSON values, and the services of the standard library that it calls.
pub mod Json
pub mod Exec
pub mod Preserves
pub mod Ensures
pub mod Host
pub mod Texts

-- ===== src/Django.antt =====
-- What the program takes from Django: the operations of one model's table, with the documented
-- behaviour that the code relies on, and a table of lists that has it.
pub mod Table
pub mod Find
pub mod Rows
pub mod Env
pub mod Atomic

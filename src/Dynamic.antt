-- ===== src/Dynamic.antt =====
-- What services/docker.py does with values of type `Any`, which it has read from JSON: the operations
-- of Python's language on them, with what they raise on a value of another type.
pub mod Defs
pub mod Numbers

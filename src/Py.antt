-- ===== src/Py.antt =====
-- What the program uses of Python and its standard library: exceptions, int, dict, defaultdict, str, struct and processes.
pub mod Result
pub mod Int
pub mod Dict
pub mod Struct
pub mod Text
pub mod Decimal
pub mod Assoc
pub mod Lines
pub mod Os

-- ===== src/Std.antt =====
-- What the program uses of the C++ standard library: `std::map`, `std::stoi`, `std::to_string`
-- and the exceptions that they throw. Strings are lists of bytes (Base).
pub mod Map
pub mod Numbers
pub mod Files
pub mod Outcome
pub mod Regex
pub use Numbers.{Exception, invalid_argument, out_of_range, runtime_error, Converted, value, thrown}

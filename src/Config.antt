-- ===== src/Config.antt =====
-- The configuration parser: include/config_parser.h and src/config_parser.cc.
pub mod Tree
pub mod Lexer
pub mod Parser
pub mod Printer
pub mod RoundTrip
pub mod Slashes
pub mod Settings

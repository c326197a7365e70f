-- ===== src/Game.antt =====
-- The clicker game: src/game_request_handler.cc, and the schema of its SQLite database.
pub mod Database
pub mod Play
pub mod Handler

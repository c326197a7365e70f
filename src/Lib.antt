-- ===== src/Lib.antt =====
-- Verification of raddish, a web server with a configuration in the style of nginx, written in
-- C++ on Boost.
--
-- The server reads a configuration file: src/config_parser.cc turns its text into tokens and a
-- tree of statements (`parse_token`, `parse`), prints a tree (`ToString`), and reads the port,
-- the handler and the directives of every location off it (`get_server_settings_inner`). A
-- request goes to src/request_dispatcher.cc, which picks the location that is the longest prefix
-- of its path and calls the handler class that is registered under the location's name
-- (src/request_handler_factory.cc). A handler makes a response and log entries
-- (src/request_handler.cc); src/file_request_handler.cc answers with files, and
-- src/crud_request_handler.cc with JSON entities that src/crud_store.cc keeps in files, and
-- src/game_request_handler.cc keeps the users of a game in an SQLite database.
--
-- Base, Base/Lists, Base/Int and Base/Tests hold numbers, lists, integers and Boolean tests over
-- the native numbers. Std holds what the program uses of the C++ library: maps (Std/Map), stoi
-- and to_string on an int of 32 bits (Std/Numbers), the file system (Std/Files), and the ways in
-- which a call ends (Std/Outcome): a value, an exception, undefined behaviour.
--
-- Config/Tree, Config/Lexer, Config/Parser, Config/Printer, Config/Slashes and Config/Settings
-- model src/config_parser.cc, include/config_parser.h and ConfigInfo of include/info.h. A stream
-- is the list of its bytes that are left. `parse` has a round of fuel for every byte and one
-- more, since every token but the last takes a byte. A statement without a child block is
-- `simple`. The stack of blocks is a list of the blocks with the top first; that a block is
-- attached to its statement when it is opened and filled later is written out as a change of the
-- last statement of the block below (`push_token`, `reset_child`, `pop_block`). Where the code
-- reads the byte before an empty string, the model takes that byte as the parameter `stray`;
-- theorems that need it not to be a slash say so. The loops that remove slashes have fuel:
-- `hasKey` takes a byte off in every round, and the other loop reaches a fixed point after two
-- rounds, so that three tell whether it ends.
--
-- Http models the requests and responses that the handlers look at, and src/request_handler.cc.
-- Dispatch models src/request_dispatcher.cc and src/request_handler_factory.cc; the order of a
-- std::map is the order of the list. Dispatch/Valid has the regular expression of
-- `is_valid_request`, with std::regex as derivatives (Std/Regex). Handlers and Handlers/File
-- model the handlers for echo, health, blocking, not found and files.
--
-- Crud/Store models src/crud_store.cc over a map from paths to nodes. Whether the operating
-- system lets a file be opened, made or removed, and whether it tells if a path exists, is a
-- parameter (`System`), which any function may instantiate. An output stream that is open takes
-- all that is written to it. Crud/Store/Spec has the store as a map that knows no paths, which
-- Crud/Store/Refinement shows it to implement. Crud/Target models the regular expression of
-- `extract_elements`, and Crud/Handler the rest of src/crud_request_handler.cc; the JSON library
-- is the parameter `Json`, whose `parse` may throw what the code does not catch.
--
-- Game models src/game_request_handler.cc: Game/Database the tables of the schema with the
-- functions that look into them and `add_user`, Game/Play `get_values` and `update_values`, and
-- Game/Handler `handle_request`. SQLite's failures, the row ids that it picks, the random bytes
-- and SHA-256 are the parameter `Services`, the JSON library is the parameter `GameJson`. A
-- function whose calls of SQLite fail throws and changes nothing, since it commits last. The
-- dump of the answer to a login is total, for it fails on text that is not UTF-8 only, and such
-- text does not get into the database by way of `parse`.
--
-- Serve models the way of a request through the server: the factory functions and the handlers
-- behind the dispatcher, the log entries of src/request_dispatcher.cc, and `create_response` of
-- src/session.cc; what is outside the repository is the parameter `Platform`, and the files and
-- databases are the state `World`. Session models `handle_read` and `handle_write` of
-- src/session.cc by what they do with the session, and Server models src/server.cc: the state
-- holds the allocated sessions and the operations that are pending, and a step completes any one
-- of these, with any error and any request (what Boost.Beast reads into `req_`), and runs its
-- handler. Server/Owed has the responses that a session still lacks, and Server/History what a
-- server that does one thing at a time would do.
--
-- Startup models src/server_main.cc with its exit codes and log, and the rest of
-- src/config_parser.cc that it calls; the stream of the file, the texts of exceptions and the
-- binding of the port are the parameter `Environment`. Logger models src/logger.cc over the list
-- of sinks of the core.
--
-- Not modelled: handlers of two sessions that overlap on the two threads of the server, which
-- would interleave their accesses to the files, except for two calls of `create`
-- (Crud/Store/Race); what a handler has written when an exception leaves it and ends the
-- process; the log entries of the session and of `get_server_settings_inner` (those of a good
-- port and of each location included); and the program of src/config_parser_main.cc, which
-- prints what a failed parse has left.
pub mod Base
pub mod Config
pub mod Crud
pub mod Dispatch
pub mod Game
pub mod Handlers
pub mod Http
pub mod Logger
pub mod Serve
pub mod Server
pub mod Session
pub mod Startup
pub mod Std
pub mod Tests

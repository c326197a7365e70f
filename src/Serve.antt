-- ===== src/Serve.antt =====
-- A request from the socket to the response: `RequestDispatcher::dispatch_request` of
-- src/request_dispatcher.cc with the factory functions and the handlers behind it, and
-- `Session::create_response` of src/session.cc.
pub mod Entries
pub mod Metrics
pub mod Once
pub mod EndToEnd
use raddish.Base.{
  ℕ, ◌/◌, ◌%◌, Option, none, some, Bool, true, false, List, [], ◌∷◌, ◌++◌, Bytes, codes,
  if◌then◌else◌,
}
use raddish.Std.{Exception, runtime_error}
use raddish.Std.Files.{Nodes, System, is_directory}
use raddish.Std.Outcome
use raddish.Std.Outcome.{Outcome, ◌>>=◌}
use raddish.Config.Settings.{ConfigInfo}
use raddish.Http
use raddish.Http.{
  Request, Response, Reply, Beast, RequestHandlerData, LogEntry, Status, result_int, debug, warning,
  trace, info, log_request, log_machine, method_string, AddrInfo,
}
use raddish.Std.Numbers.{to_string}
use raddish.Base.{pos}
use raddish.Handlers.{echo, health, blocking, not_found_reply}
use raddish.Handlers.File.{handle_file}
use raddish.Dispatch
use raddish.Dispatch.{
  Handler, echo_handler, health_handler, blocking_handler, not_found_handler, file_handler,
  crud_handler, game_handler, Dispatched, refused, handled, exits, dispatch_request,
}
use raddish.Dispatch.Valid.{is_valid_request}
use raddish.Crud.Handler.{Json, handle_request}
use raddish.Game.Database.{Database, Services}
use raddish.Game.Handler.{GameJson, handle_game}

-- What the server reads and writes: the files, and the database at each path.
pub record World : Type 0 where
  pub files : Nodes
  pub databases : Bytes → Database

-- What is not code of the repository.
pub record Platform : Type 1 where
  pub stray : ℕ
  pub beast : Beast
  pub os : System
  pub json : Json
  pub game_json : GameJson
  pub services : Services

-- The name that the constructor of each handler sets.
abbrev pub echo_name : Bytes
echo_name = codes "EchoRequestHandler"

abbrev pub health_name : Bytes
health_name = codes "HealthRequestHandler"

abbrev pub blocking_name : Bytes
blocking_name = codes "BlockingRequestHandler"

abbrev pub not_found_name : Bytes
not_found_name = codes "NotFoundHandler"

abbrev pub file_name : Bytes
file_name = codes "FileRequestHandler"

abbrev pub crud_name : Bytes
crud_name = codes "CRUDRequestHandler"

abbrev pub game_name : Bytes
game_name = codes "GameRequestHandler"

unfoldable pub handler_name : Handler → Bytes
handler_name echo_handler = echo_name
handler_name health_handler = health_name
handler_name blocking_handler = blocking_name
handler_name not_found_handler = not_found_name
handler_name file_handler = file_name
handler_name crud_handler = crud_name
handler_name game_handler = game_name

abbrev pub Called : Type 0
Called = Outcome (World × Reply)

-- The CRUD handler's part of the world.
abbrev pub with_files : World → Outcome (Nodes × Reply) → Called
with_files w (Outcome.ok (fs, reply)) = Outcome.ok (record w { files = fs }, reply)
with_files w (Outcome.throw e) = Outcome.throw e
with_files w Outcome.undefined = Outcome.undefined

abbrev pub set_database : (Bytes → Database) → Bytes → Database → Bytes → Database
set_database dbs path db path' = if raddish.Base.equal path path' then db else dbs path'

-- The game handler's part of the world.
abbrev pub with_database : World → Bytes → Outcome (Database × Reply) → Called
with_database w path (Outcome.ok (db, reply)) =
    Outcome.ok (record w { databases = set_database w.databases path db }, reply)
with_database w path (Outcome.throw e) = Outcome.throw e
with_database w path Outcome.undefined = Outcome.undefined

-- `CRUDRequestHandler::init`, which throws if the data path is no directory; `is_directory` itself
-- throws for a path that the system does not look up.
unfoldable pub init_crud : Nodes → RequestHandlerData → Outcome RequestHandlerData
unfolding is_directory
init_crud fs config =
    if is_directory fs config.data_path
    then Outcome.ok config
    else Outcome.throw
        (runtime_error (codes "Given data path for CRUDRequestHandler is not a directory"))

module _ (p : Platform) where
  -- The factory function of a handler, and `handle_request` of what it makes.
  unfoldable pub call : Handler → RequestHandlerData → World → Request → Called
  unfolding init_crud
  call echo_handler config w request = Outcome.ok (w, echo p.beast request)
  call health_handler config w request = Outcome.ok (w, health p.beast request)
  call blocking_handler config w request = Outcome.ok (w, blocking p.beast request)
  call not_found_handler config w request = Outcome.ok (w, not_found_reply p.beast request)
  call file_handler config w request = do
    reply ← handle_file p.beast p.os w.files config.root request
    Outcome.ok (w, reply)
  call crud_handler config w request = do
    made ← init_crud w.files config
    with_files w (handle_request p.stray p.json p.beast p.os made w.files request)
  call game_handler config w request =
      with_database w config.data_path
        (handle_game p.game_json p.services p.beast (w.databases config.data_path) request)

  -- The name of the dispatcher in its log entries.
  unfoldable pub dispatch_process : Request → Bytes
  unfolding method_string
  dispatch_process request =
      method_string request.method ++ (codes " " ++ (request.target ++ codes " - Req Dispatch"))

  abbrev pub digit_of : Bool → Bytes
  digit_of true = codes "1"
  digit_of false = codes "0"

  -- What the dispatcher logs before it looks for a handler. The answer of the test is printed as a
  -- digit, since `<<` binds tighter than `? :`.
  unfoldable pub dispatch_log : Request → Bytes → List LogEntry
  unfolding dispatch_process method_string is_valid_request
  dispatch_log request client =
      record {
        process = dispatch_process request;
        severity = debug;
        message =
            codes "Received "
            ++ (method_string request.method ++ (codes " request from " ++ client));
      }
      ∷ record {
        process = dispatch_process request;
        severity = trace;
        message = codes "Full HTTP request object :\n" ++ p.beast.print_request request;
      }
      ∷ record {
        process = dispatch_process request;
        severity = trace;
        message = codes "Request Valid? " ++ digit_of (is_valid_request p.beast request);
      }
      ∷ []

  -- What it logs of a request that is not valid.
  unfoldable pub refused_log : Request → Bytes → List LogEntry
  unfolding dispatch_process method_string log_machine
  refused_log request client =
      record {
        process = dispatch_process request;
        severity = warning;
        message =
            codes "Status 400 Bad Request - Client"
            ++ (client
                ++ (codes " requests \""
                    ++ (method_string request.method
                        ++ (codes " "
                            ++ (request.target
                                ++ (codes " HTTP/"
                                    ++ (to_string (pos (request.version / 10))
                                        ++ (codes "."
                                            ++ (to_string (pos (request.version % 10))
                                                ++ codes "\"")))))))));
      }
      ∷ log_machine (record { host_addr = []; client_addr = client }) (codes "BadRequestHandler")
          400 request.target
      ∷ []

-- How a request ends: with a response, by an exception, by `exit(-1)`, or in undefined behaviour.
pub data Served : Type 0 where
  answered : World → Response → List LogEntry → Served
  throws : Exception → Served
  exited : Served
  undefined : Served

-- The calls of `log_request` with these messages.
unfoldable pub log_replies :
    Beast → AddrInfo → Bytes → Request → Response → List Bytes → List LogEntry
unfolding log_request
log_replies beast addr name request response [] = []
log_replies beast addr name request response (m ∷ ms) =
    log_request beast addr name request response m
    ++ log_replies beast addr name request response ms

module _ (p : Platform) where
  -- What `handle_request` returns and logs, behind the entries of the dispatcher.
  abbrev pub served : Handler → AddrInfo → Request → List LogEntry → Called → Served
  served h addr request before (Outcome.ok (w, reply)) = answered w reply.response (
      before ++ log_replies p.beast addr (handler_name h) request reply.response reply.log_messages)
  served h addr request before (Outcome.throw e) = throws e
  served h addr request before Outcome.undefined = undefined

  unfoldable pub path_entry : Request → LogEntry
  path_entry request = record {
    process = dispatch_process p request;
    severity = trace;
    message = codes "Path of request : " ++ request.target;
  }

  -- The request goes to the handler that the dispatcher chose, if it chose one.
  abbrev pub serve_as : World → Request → Bytes → Dispatched → Served
  serve_as w request client (refused response) =
      answered w response (dispatch_log p request client ++ refused_log p request client)
  serve_as w request client (handled h config) =
      served h config.addr_info request (dispatch_log p request client ++ path_entry request ∷ [])
        (call p h config w request)
  serve_as w request client exits = exited
  serve_as w request client Dispatched.undefined = undefined

  -- `dispatch_request`
  unfoldable pub respond : ConfigInfo → Bytes → Bytes → World → Request → Served
  respond config host client w request = serve_as w request client (
      dispatch_request p.stray p.beast (is_valid_request p.beast request) request config host
        client)

pub record Endpoint : Type 0 where
  pub address : Bytes
  pub port : ℕ

-- `none` where the socket has no such endpoint, and the call throws a system_error.
pub record Socket : Type 0 where
  pub local_endpoint : Option Endpoint
  pub remote_endpoint : Option Endpoint

unfoldable pub endpoint_text : Endpoint → Bytes
endpoint_text e = e.address ++ (codes ":" ++ to_string (pos e.port))

-- `client_addr` and `host_addr`, which stay empty if an endpoint is missing.
unfoldable pub addresses : Option Endpoint → Option Endpoint → Bytes × Bytes
unfolding endpoint_text
addresses (some client) (some host) = (endpoint_text client, endpoint_text host)
addresses _ _ = ([], [])

-- `create_response`. It names the local endpoint the client and the remote one the host, and passes
-- them in this order to parameters that are named host and client.
unfoldable pub create_response : Platform → Socket → ConfigInfo → World → Request → Served
unfolding addresses
create_response p socket config w request =
    let (client_addr, host_addr) = addresses socket.local_endpoint socket.remote_endpoint in
    respond p config client_addr host_addr w request

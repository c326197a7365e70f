-- ===== src/Http.antt =====
-- Requests and responses, as far as the server looks at them, and the base class of the handlers:
-- src/request_handler.cc, include/request_handler.h and include/info.h.
-- Of Boost.Beast and Boost.Log the model takes what `Beast` holds.
use raddish.Base.{
  ℕ, zero, suc, take, Option, none, some, List, [], ◌∷◌, ◌++◌, Bytes, codes, ◌==◌, equal,
  if◌then◌else◌, pos,
}
use mathlib.Core.Option
use raddish.Std.Numbers.{to_string}

-- The methods that the server names; another one is known by its name alone.
pub data Verb : Type 0 where
  get post put delete : Verb
  other : Bytes → Verb

unfoldable pub method_string : Verb → Bytes
method_string get = codes "GET"
method_string post = codes "POST"
method_string put = codes "PUT"
method_string delete = codes "DELETE"
method_string (other name) = name

pub record Request : Type 0 where
  pub method : Verb
  pub target : Bytes
  pub version : ℕ
  pub body : Bytes

pub data Status : Type 0 where
  ok bad_request not_found method_not_allowed : Status
  unprocessable_entity internal_server_error : Status

-- `result_int`
abbrev pub result_int : Status → ℕ
result_int ok = 200
result_int bad_request = 400
result_int not_found = 404
result_int method_not_allowed = 405
result_int unprocessable_entity = 422
result_int internal_server_error = 500

pub record Response : Type 0 where
  pub result : Status
  pub version : ℕ
  pub server : Bytes
  pub content_type : Bytes
  pub body : Bytes

-- `BOOST_BEAST_VERSION_STRING`, and `operator<<` of a request, of its header and of the header of
-- a response.
pub record Beast : Type 0 where
  pub version_string : Bytes
  pub print_request : Request → Bytes
  pub print_request_header : Request → Bytes
  pub print_response_header : Response → Bytes

pub record AddrInfo : Type 0 where
  pub host_addr : Bytes
  pub client_addr : Bytes

pub record RequestHandlerData : Type 0 where
  pub location_path : Bytes
  pub root : Bytes
  pub data_path : Bytes
  pub addr_info : AddrInfo

-- What a handler leaves: its response, and the messages that it passes to `log_request` with that
-- response, one for each call.
pub record Reply : Type 0 where
  pub response : Response
  pub log_messages : List Bytes

-- `RequestHandler::init_response`
unfoldable pub init_response : Beast → Request → Response
init_response beast request = record {
  result = not_found;
  version = request.version;
  server = beast.version_string;
  content_type = codes "text/plain";
  body = codes "404 Not Found";
}

pub data Severity : Type 0 where
  trace debug info warning error fatal : Severity

pub record LogEntry : Type 0 where
  pub process : Bytes
  pub severity : Severity
  pub message : Bytes

-- `find('\n')`
unfoldable pub newline_at : Bytes → Option ℕ
newline_at [] = none
newline_at (c ∷ cs) =
    let rest = Option.map suc (newline_at cs) in if c == b'\n' then some 0 else rest

abbrev cut_before : Bytes → Option ℕ → Bytes
cut_before header none = header
cut_before header (some zero) = header
cut_before header (some (suc k)) = take k header

-- `req_header.substr(0, req_header.find('\n')-1)`: all of it if there is no newline or if the
-- newline comes first, for then the count wraps around.
unfoldable pub request_line : Bytes → Bytes
unfolding newline_at
request_line header = cut_before header (newline_at header)

-- The name that `init_response` gives to the log entries of a handler.
unfoldable pub process_of : Bytes → Request → Bytes
unfolding method_string
process_of handler_name request =
    method_string request.method ++ (codes " " ++ (request.target ++ (codes " - " ++ handler_name)))

-- `log_machine`
unfoldable pub log_machine : AddrInfo → Bytes → ℕ → Bytes → LogEntry
log_machine addr handler_name status target = record {
  process = codes "ResponseMetrics";
  severity = info;
  message =
      codes "response_code:"
      ++ (to_string (pos status)
          ++ (codes " request_path:"
              ++ (target
                  ++ (codes " request_ip:"
                      ++ (addr.client_addr ++ (codes " request_handler_name:" ++ handler_name))))));
}

-- `RequestHandler::log_request`. The severity that the `switch` chooses is set to `info` again by
-- the statement behind it.
unfoldable pub log_request : Beast → AddrInfo → Bytes → Request → Response → Bytes → List LogEntry
unfolding log_machine request_line process_of
log_request beast addr handler_name request response log_message =
    let status = result_int response.result in
    let process = process_of handler_name request in
    let line = request_line (beast.print_request_header request) in
    let shown =
      if equal response.content_type (codes "text/plain")
      then response.body
      else codes "Binary of " ++ request.target in
    record {
      process = process;
      severity = info;
      message =
          codes "Status "
          ++ (to_string (pos status)
              ++ (codes " "
                  ++ (log_message
                      ++ (codes " - Client "
                          ++ (addr.client_addr
                              ++ (codes " requests \"" ++ (line ++ codes "\"")))))));
    }
    ∷ log_machine addr handler_name status request.target
    ∷ record {
      process = process;
      severity = trace;
      message = codes "Full HTTP response :\n" ++ (beast.print_response_header response ++ shown);
    }
    ∷ []

-- ===== src/Tests/Serve.antt =====
-- The theorems on a request's way through the server at concrete inputs.
use raddish.Base.{List, [], ◌∷◌, ◌++◌, Bytes, codes, some, ◌≡◌, ◌↔◌, refl, true, arith, inl}
use raddish.Http
use raddish.Http.{Beast, Request, Response, LogEntry, RequestHandlerData, result_int}
use raddish.Config.Printer.{to_string}
use raddish.Config.Printer.Lexing.{IsPrintable}
use raddish.Config.RoundTrip.{parse-IsPrintable}
use raddish.Config.Parser.{parse, accepted}
use raddish.Config.Settings.{ConfigInfo, get_server_settings_inner, ok, unquote}
use raddish.Config.Settings.Spec.{to_statements}
use raddish.Dispatch.{
  Handler, echo_handler, dispatch_request, handled, get_factory, starts_with, with_slash,
}
use raddish.Dispatch.Valid.{is_valid_request}
use raddish.Dispatch.Valid.Form.{HasHead, is_valid_request-HasHead}
use raddish.Serve.{
  Platform, World, Socket, Endpoint, endpoint_text, answered, create_response, dispatch_log,
  handler_name,
}
use raddish.Serve.Metrics.{Chosen, create_response-metrics}
use raddish.Serve.Entries.{metrics, metrics_entry}
use raddish.Serve.EndToEnd.{Routed, dispatch-to_statements}
use raddish.Tests.Config.{items, items-IsWellFormed, items-port}
use raddish.Tests.Server
use raddish.Tests.Server.{os, beast, config_info, request_of}
use raddish.Tests.Game

-- The first line of a request, without headers.
abbrev print_request : Request → Bytes
print_request r =
    Http.method_string r.method ++ (codes " " ++ (r.target ++ codes " HTTP/1.1\r\n\r\n"))

abbrev printing : Beast
printing = record beast { print_request = print_request }

abbrev pub platform : Platform
platform = record {
  stray = 0;
  beast = printing;
  os = os;
  json = Server.json;
  game_json = Game.json;
  services = Game.services;
}

abbrev pub world : World
world = record { files = Server.files; databases = λ _. Game.offline }

abbrev near : Endpoint
near = record { address = codes "10.0.0.1"; port = 80 }

abbrev far : Endpoint
far = record { address = codes "10.0.0.2"; port = 4000 }

abbrev pub socket : Socket
socket = record { local_endpoint = some near; remote_endpoint = some far }

abbrev pub request : Request
request = request_of Http.get (codes "/echo/x") []

abbrev pub response : Response
response = record {
  result = Http.ok;
  version = 11;
  server = codes "Boost.Beast/318";
  content_type = codes "text/plain";
  body = codes "GET /echo/x HTTP/1.1\r\n\r\n";
}

-- The request is answered, and the world stays.
pub answer :
    (log : List LogEntry) × (create_response platform socket config_info world request
      ≡ answered world response log)
unfolding create_response is_valid_request Http.method_string raddish.Std.Regex.regex_search
    raddish.Std.Regex.regex_match raddish.Serve.addresses raddish.Serve.respond dispatch_request
    raddish.Dispatch.search_loop raddish.Dispatch.search_step raddish.Dispatch.improves starts_with
    with_slash get_factory raddish.Dispatch.handler_data raddish.Serve.call raddish.Handlers.echo
    Http.init_response
answer = (_, refl)

create_response-metrics_example :
    (name : Bytes) × Chosen
      (dispatch_request 0 printing
        (is_valid_request printing request)
        request
        config_info
        (endpoint_text near)
        (endpoint_text far))
      name
    × (metrics (answer.0)
        ≡ metrics_entry (endpoint_text far) name (result_int response.result) request.target ∷ [])
create_response-metrics_example =
    create_response-metrics platform config_info near far world world request response (answer.0)
      (answer.1)

parse_items :
    parse (codes "port 8080; location /a/ EchoRequestHandler { root \"x\"; }")
    ≡ some (accepted (to_statements items))
unfolding parse raddish.Config.Lexer.parse_token
parse_items = refl

abbrev echo_request : Request
echo_request = request_of Http.get (codes "/a/x") []

pub items-IsPrintable : IsPrintable (to_statements items)
items-IsPrintable =
    parse-IsPrintable (codes "port 8080; location /a/ EchoRequestHandler { root \"x\"; }")
      parse_items

dispatch-to_statements_example :
    (info : ConfigInfo) × (h : Handler) × (config : RequestHandlerData) × (parse
        (to_string (to_statements items) 0)
      ≡ some (accepted (to_statements items)))
    × (get_server_settings_inner 0 (to_statements items) ≡ ok info)
    × (dispatch_request 0 beast true echo_request info [] [] ≡ handled h config)
    × Routed 0 items echo_request.target [] [] h config
unfolding starts_with with_slash get_factory unquote
dispatch-to_statements_example =
    dispatch-to_statements 0 items 8080 beast echo_request [] [] (codes "/a/")
      (codes "EchoRequestHandler") refl items-IsWellFormed items-IsPrintable
      ((echo_handler, refl), tt) items-port (omega arith) (inl (refl, refl)) refl

-- A request of HTTP/1.0 whose body has the head of another request.
abbrev smuggled : Request
smuggled = record {
  method = Http.post;
  target = codes "/";
  version = 10;
  body = codes "GET / HTTP/1.1\n\n";
}

abbrev body_printing : Beast
body_printing = record beast { print_request = λ r. codes "POST / HTTP/1.0\r\n\r\n" ++ r.body }

is_valid_request-HasHead_example :
    (is_valid_request body_printing smuggled ≡ true)
    ↔ HasHead (codes "POST / HTTP/1.0\r\n\r\n" ++ codes "GET / HTTP/1.1\n\n")
is_valid_request-HasHead_example = is_valid_request-HasHead body_printing smuggled

smuggled_valid : is_valid_request body_printing smuggled ≡ true
unfolding is_valid_request raddish.Std.Regex.regex_search raddish.Std.Regex.regex_match
smuggled_valid = refl

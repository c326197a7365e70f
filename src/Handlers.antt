-- ===== src/Handlers.antt =====
-- The request handlers that keep no data: src/echo_request_handler.cc,
-- src/health_request_handler.cc, src/blocking_request_handler.cc and
-- src/not_found_request_handler.cc; files are in Handlers/File.
pub mod File
pub mod Once
use raddish.Base.{[], ◌∷◌, codes}
use raddish.Http.{Beast, Request, Response, Reply, ok, not_found, init_response}

-- `EchoRequestHandler::handle_request`
unfoldable pub echo : Beast → Request → Reply
unfolding init_response
echo beast request = record {
  response = record (init_response beast request) {
    body = beast.print_request request;
    result = ok;
  };
  log_messages = codes "Echoed" ∷ [];
}

-- `HealthRequestHandler::handle_request`
unfoldable pub health : Beast → Request → Reply
unfolding init_response
health beast request = record {
  response = record (init_response beast request) { body = codes "OK"; result = ok };
  log_messages = codes "Health check" ∷ [];
}

-- `BlockingRequestHandler::handle_request`, less the second for which it sleeps.
unfoldable pub blocking : Beast → Request → Reply
unfolding init_response
blocking beast request = record {
  response = record (init_response beast request) {
    result = ok;
    body = codes "Returned response after 1 seconds";
  };
  log_messages = codes "Returned response after 1 seconds" ∷ [];
}

-- `NotFoundHandler::handle_request`
unfoldable pub not_found_reply : Beast → Request → Reply
unfolding init_response
not_found_reply beast request = record {
  response = record (init_response beast request) { result = not_found };
  log_messages = codes "Path not configured" ∷ [];
}

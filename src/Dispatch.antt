-- ===== src/Dispatch.antt =====
-- `RequestDispatcher` of src/request_dispatcher.cc, with the registry of
-- src/request_handler_factory.cc. `dispatch_request` takes the answer of `is_valid_request` (Valid)
-- as an argument.
pub mod Locations
pub mod Match
pub mod Valid
use raddish.Base.{
  ℕ, zero, suc, ◌+◌, Bool, true, false, ◌&&◌, List, [], ◌∷◌, ◌++◌, Bytes, Option, none, some, codes,
  ◌==◌, equal, ltb, length, if◌then◌else◌,
}
use raddish.Std.Map
use raddish.Std.Map.{Map}
use raddish.Config.Settings.{ConfigInfo}
use raddish.Config.Slashes.{last_char}
use raddish.Http.{Beast, Request, Response, Reply, bad_request, RequestHandlerData, AddrInfo}

-- The classes that register themselves with the factory map.
pub data Handler : Type 0 where
  echo_handler health_handler blocking_handler not_found_handler : Handler
  file_handler crud_handler game_handler : Handler

-- The map after all classes are registered.
unfoldable pub get_map : Map Handler
unfolding Map.insert
get_map = Map.insert (codes "EchoRequestHandler") echo_handler (
    Map.insert (codes "HealthRequestHandler") health_handler (
      Map.insert (codes "BlockingRequestHandler") blocking_handler (
        Map.insert (codes "NotFoundHandler") not_found_handler (
          Map.insert (codes "FileRequestHandler") file_handler (
            Map.insert (codes "CRUDRequestHandler") crud_handler
              (Map.insert (codes "GameRequestHandler") game_handler []))))))

-- `get_factory`; `none` stands for `exit(-1)`.
unfoldable pub get_factory : Bytes → Option Handler
unfolding get_map Map.lookup
get_factory name = Map.lookup name get_map

-- `find(path) == 0`
unfoldable pub starts_with : Bytes → Bytes → Bool
starts_with s [] = true
starts_with [] (c ∷ cs) = false
starts_with (d ∷ s) (c ∷ cs) = d == c && starts_with s cs

-- The dispatcher's outcome: a 400; the handler with its data; `exit(-1)` on a name that no
-- handler has; or a call through a pointer that was never set.
pub data Dispatched : Type 0 where
  refused : Response → Dispatched
  handled : Handler → RequestHandlerData → Dispatched
  exits : Dispatched
  undefined : Dispatched

-- The variables of the loop: `curr_longest_match`, and `handler_factory` once it is set. The loop
-- stops early only by `exit`.
pub record Search : Type 0 where
  pub longest : Bytes
  pub factory : Option Handler

abbrev pub found : Bytes → Option Handler → Option Search
found location none = none
found location (some h) = some (record { longest = location; factory = some h })

module _ (stray : ℕ) where
  -- The name with a slash at its end.
  unfoldable pub with_slash : Bytes → Bytes
  unfolding last_char
  with_slash s = if last_char stray s == b'/' then s else s ++ b'/' ∷ []

  -- The test of the loop, for a location.
  unfoldable pub improves : Bytes → Bytes → Bytes → Bool
  unfolding with_slash starts_with
  improves file_path longest location =
      let path = with_slash location in
      starts_with (with_slash file_path) path && ltb (length longest) (length path)

  -- One round of the loop; `none` is `exit`.
  unfoldable pub search_step : Bytes → Bytes → Bytes → Search → Option Search
  search_step file_path location name s =
      if improves file_path s.longest location then found location (get_factory name) else some s

  unfoldable pub search_loop : Bytes → Map Bytes → Search → Option Search
  search_loop file_path [] s = some s
  search_loop file_path ((location, name) ∷ m) s = elim (search_step file_path location name s) [
    | none ↦ none
    | some s' ↦ search_loop file_path m s'
  ]

abbrev pub no_match : Search
no_match = record { longest = []; factory = none }

-- `location_to_directives[location][key]`, which is empty if either is missing.
unfoldable pub directive : ConfigInfo → Bytes → Bytes → Bytes
unfolding Map.get_or
directive config location key =
    Map.get_or key [] (Map.get_or location [] config.location_to_directives)

unfoldable pub handler_data : ConfigInfo → Bytes → Bytes → Bytes → RequestHandlerData
unfolding directive
handler_data config longest host client = record {
  location_path = longest;
  root = directive config longest (codes "root");
  data_path = directive config longest (codes "data_path");
  addr_info = record { host_addr = host; client_addr = client };
}

abbrev pub call_factory : ConfigInfo → Bytes → Bytes → Option Search → Dispatched
call_factory config host client none = exits
call_factory config host client (some s) = elim (s.factory) [
  | none ↦ undefined
  | some h ↦ handled h (handler_data config s.longest host client)
]

unfoldable pub bad_request_response : Beast → Request → Response
bad_request_response beast request = record {
  result = bad_request;
  version = request.version;
  server = beast.version_string;
  content_type = codes "text/plain";
  body = codes "400 Bad Request";
}

-- `dispatch_request`, up to the call of the handler.
unfoldable pub dispatch_request :
    ℕ → Beast → Bool → Request → ConfigInfo → Bytes → Bytes → Dispatched
unfolding search_loop search_step improves get_factory handler_data bad_request_response
dispatch_request stray beast is_valid request config host client =
    if is_valid
    then call_factory config host client
        (search_loop stray request.target config.location_to_handler no_match)
    else refused (bad_request_response beast request)

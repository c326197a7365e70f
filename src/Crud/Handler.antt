-- ===== src/Crud/Handler.antt =====
-- `CRUDRequestHandler` of src/crud_request_handler.cc, over the store (Crud/Store). The JSON
-- library is what `Json` holds.
pub mod Answers
pub mod RoundTrip
pub mod PostGet
pub mod Once
use raddish.Base.{
  ℕ, zero, suc, ◌-◌, Bool, true, false, List, [], ◌∷◌, ◌++◌, Bytes, Option, none, some, codes, ltb,
  ◌==◌, length, take, drop, if◌then◌else◌, ℤ, pos, negsuc, is_zero,
}
use raddish.Std.Numbers.{out_of_range, to_string}
use raddish.Std.Files.{Nodes, System}
use raddish.Std.Outcome.{Outcome, ok, throw, ◌>>=◌}
use raddish.Config.Slashes.{last_char}
use raddish.Http
use raddish.Http.{
  Verb, get, post, put, delete, other, method_string, Request, Status, bad_request, not_found,
  method_not_allowed, internal_server_error, Response, Beast, RequestHandlerData, Reply,
  init_response,
}
use raddish.Crud.Store.{list, create, retrieve, update, del}
use raddish.Crud.Target.{extract_elements}

-- nlohmann::json: `parse` with `none` for its parse_error, and its other exceptions thrown, as
-- out_of_range for a number that is too large; `dump`, which is total on what `parse` returns; and
-- the value of a vector.
pub record Json : Type 1 where
  pub Value : Type 0
  pub parse : Bytes → Outcome (Option Value)
  pub dump : Value → Bytes
  pub numbers : List ℤ → Value

abbrev pub application_json : Bytes
application_json = codes "application/json"

abbrev pub plain : Bytes
plain = codes "text/plain"

unfoldable pub set_bad_request_response : Response → Bytes → Response
set_bad_request_response res message = record res {
  result = bad_request;
  body = message;
  content_type = plain;
}

unfoldable pub set_file_not_found_response : Response → Response
set_file_not_found_response res = record res {
  result = not_found;
  body = codes "404 File Not Found";
  content_type = plain;
}

unfoldable pub set_internal_server_error_response : Response → Response
set_internal_server_error_response res = record res {
  result = internal_server_error;
  body = codes "500 Internal Server Error";
  content_type = plain;
}

unfoldable pub set_method_not_allowed : Response → Bytes → Response
set_method_not_allowed res message = record res {
  result = method_not_allowed;
  body = message;
  content_type = plain;
}

-- The constructor: one slash at the end of the location is taken off.
unfoldable pub location_prefix : ℕ → Bytes → Outcome Bytes
location_prefix stray [] = if stray == b'/' then throw out_of_range else ok []
location_prefix stray (c ∷ cs) =
    if last_char stray (c ∷ cs) == b'/' then ok (take (length cs) (c ∷ cs)) else ok (c ∷ cs)

-- `target.substr(location_path_.length())`
unfoldable pub relative : Bytes → Bytes → Outcome Bytes
relative target location =
    if ltb (length target) (length location)
    then throw out_of_range
    else ok (drop (length location) target)

-- A call of the store, with its nodes after it, and the response.
abbrev pub Answer : Type 0
Answer = Outcome (Nodes × Response)

module _ (json : Json) (os : System) (data_path : Bytes) (fs : Nodes) (res : Response) where
  abbrev pub found_response : Option Bytes → Response
  found_response none = set_file_not_found_response (record res { content_type = application_json })
  found_response (some content) = record res {
    content_type = application_json;
    result = Http.ok;
    body = content;
  }

  -- `get`
  unfoldable pub get_entity : ℤ → Bytes → Answer
  get_entity id entity = elim (is_zero id) [
    | true ↦ do
      ids ← list os fs data_path entity
      ok (fs, found_response (some (json.dump (json.numbers ids))))
    | false ↦ do content ← retrieve os fs data_path entity id; ok (fs, found_response content)
  ]

  unfoldable pub id_response : ℤ → Response
  id_response id = record res {
    result = Http.ok;
    content_type = application_json;
    body = codes "{\"id\": " ++ (to_string id ++ codes "}");
  }

  abbrev pub created_response : ℤ → Response
  created_response (pos n) = id_response (pos n)
  created_response (negsuc zero) = set_internal_server_error_response res
  created_response (negsuc (suc n)) = id_response (negsuc (suc n))

  abbrev pub post_parsed : Bytes → Option json.Value → Answer
  post_parsed entity none = ok (fs, set_bad_request_response res [])
  post_parsed entity (some value) = do
    (fs', id) ← create os fs data_path entity (json.dump value)
    ok (fs', created_response id)

  -- `post`
  unfoldable pub post_entity : Bytes → Bytes → Answer
  post_entity entity body = do parsed ← json.parse body; post_parsed entity parsed

  abbrev pub updated_response : Bool → Response
  updated_response true = record res { result = Http.ok }
  updated_response false = set_internal_server_error_response res

  abbrev pub put_parsed : ℤ → Bytes → Option json.Value → Answer
  put_parsed id entity none = ok (fs, set_bad_request_response res [])
  put_parsed id entity (some value) = do
    (fs', opened) ← update os fs data_path entity id (json.dump value)
    ok (fs', updated_response opened)

  -- `put`
  unfoldable pub put_entity : ℤ → Bytes → Bytes → Answer
  put_entity id entity body = do parsed ← json.parse body; put_parsed id entity parsed

  abbrev pub deleted_response : Bool → Response
  deleted_response true = record res { result = Http.ok }
  deleted_response false = set_file_not_found_response res

  -- `del`
  unfoldable pub del_entity : ℤ → Bytes → Answer
  del_entity id entity = do
    (fs', existed) ← del os fs data_path entity id
    ok (fs', deleted_response existed)

-- The nodes and the reply.
abbrev pub Handled : Type 0
Handled = Outcome (Nodes × Reply)

abbrev pub logged : Bytes → Answer → Handled
logged log_message answer = do
  (fs', response) ← answer
  ok (fs', record { response = response; log_messages = log_message ∷ [] })

abbrev pub post_with_id : Bytes
post_with_id = codes "POST requests cannot specify an entity ID"

abbrev pub put_without_id : Bytes
put_without_id = codes "PUT requests must specify an entity ID"

abbrev pub delete_without_id : Bytes
delete_without_id = codes "DELETE requests must specify an entity ID"

abbrev pub invalid_format : Bytes
invalid_format = codes "Invalid request format for CRUD API"

abbrev pub completed : Verb → Bytes
completed method = codes "Completed CRUD " ++ (method_string method ++ codes " Request")

module _ (json : Json) (os : System) (data_path : Bytes) (fs : Nodes) (res : Response) where
  unfoldable pub refuse : Bytes → Handled
  unfolding set_bad_request_response
  refuse message =
      ok (
        fs,
        record { response = set_bad_request_response res message; log_messages = message ∷ [] },
      )

  -- The `switch` over the method.
  unfoldable pub switch_method : Verb → Bytes → Bytes → ℤ → Handled
  switch_method get body entity id =
      logged (completed get) (get_entity json os data_path fs res id entity)
  switch_method post body entity id = elim (is_zero id) [
    | true ↦ logged (completed post) (post_entity json os data_path fs res entity body)
    | false ↦ refuse post_with_id
  ]
  switch_method put body entity id = elim (is_zero id) [
    | true ↦ refuse put_without_id
    | false ↦ logged (completed put) (put_entity json os data_path fs res id entity body)
  ]
  switch_method delete body entity id = elim (is_zero id) [
    | true ↦ refuse delete_without_id
    | false ↦ logged (completed delete) (del_entity json os data_path fs res id entity)
  ]
  switch_method (other name) body entity id =
      let message = codes "[" ++ (name ++ codes "] Method Not Allowed") in
      ok (fs, record { response = set_method_not_allowed res message; log_messages = message ∷ [] })

  abbrev pub with_elements : Verb → Bytes → Option (Bytes × ℤ) → Handled
  with_elements method body none = refuse invalid_format
  with_elements method body (some (entity, id)) = switch_method method body entity id

-- `handle_request` of a handler that was made for the location and the data path.
unfoldable pub handle_request :
    ℕ → Json → Beast → System → RequestHandlerData → Nodes → Request → Handled
handle_request stray json beast os config fs request = do
  location ← location_prefix stray config.location_path
  relative_path ← relative request.target location
  elements ← extract_elements relative_path
  with_elements json os config.data_path fs (init_response beast request) request.method
      request.body elements

-- ===== src/Tests/Server.antt =====
-- The server's theorems at concrete inputs.
use raddish.Base.{false, [], ◌∷◌, Bytes, codes, Option, some, none, ◌≡◌, ◌⊎◌, refl, pos, true}
use raddish.Std.Map
use raddish.Std.Files.{Node, file, directory, Nodes, System, exists, read_file}
use raddish.Std.Outcome
use raddish.Http
use raddish.Http.{Request, Beast, RequestHandlerData, Reply, Status}
use raddish.Config.Settings.{ConfigInfo}
use raddish.Dispatch.{dispatch_request}
use raddish.Dispatch.Match.{Allowed, dispatch_request-Allowed}
use raddish.Handlers.File.{file_extension}
use raddish.Handlers.File.ContentType.{file_extension_lem}
use raddish.Crud.Store.{entity_path, file_path, create, retrieve, update, del, list, next_id, sort}
use raddish.Crud.Store.Sorted.{IsSorted}
use raddish.Crud.Store.Fresh.{Created, NotCreated, create-Created}
use raddish.Crud.Store.Changes.{Updated, update-Updated, Deleted, del-Deleted, list-IsSorted}
use raddish.Crud.Target.{extract_elements}
use raddish.Crud.Target.Form.{Form, extract_elements-Form}
use raddish.Crud.Handler.{Json, handle_request}
use raddish.Crud.Handler.Answers.{SameButOne, handle_request-SameButOne}
use raddish.Crud.Handler.RoundTrip.{put-get}

abbrev pub os : System
os = record {
  fails_status = λ _ _. false;
  can_read = λ _ _. true;
  can_write = λ _ _. true;
  can_create = λ _ _. true;
  can_remove = λ _ _. true;
}

abbrev pub beast : Beast
beast = record {
  version_string = codes "Boost.Beast/318";
  print_request = λ r. r.target;
  print_request_header = λ r. r.target;
  print_response_header = λ r. r.body;
}

-- Two entries of the entity `e`.
abbrev pub files : Nodes
files =
    (codes "d/e", directory)
    ∷ (codes "d/e/10", file (codes "ten"))
    ∷ (codes "d/e/2", file (codes "two"))
    ∷ []

abbrev pub d : Bytes
d = codes "d"

abbrev pub e : Bytes
e = codes "e"

abbrev pub files_created : Nodes
files_created =
    (codes "d/e", directory)
    ∷ (codes "d/e/10", file (codes "ten"))
    ∷ (codes "d/e/11", file (codes "new"))
    ∷ (codes "d/e/2", file (codes "two"))
    ∷ []

pub create-files : create os files d e (codes "new") ≡ Outcome.ok (files_created, pos 11)
unfolding create list next_id raddish.Crud.Store.max_element raddish.Crud.Store.write_new exists
    entity_path file_path Map.insert raddish.Std.Files.is_directory
    raddish.Std.Files.opens_for_write raddish.Crud.Store.ensure_directory
    raddish.Crud.Store.collect_ids raddish.Std.Files.entries raddish.Std.Numbers.stoi sort
create-files = refl

create-Created_example :
    Created files files_created d e (codes "new") (pos 11) ⊎ NotCreated files files_created (pos 11)
create-Created_example =
    create-Created os files files_created d e (codes "new") (pos 11) create-files

abbrev pub files_updated : Nodes
files_updated =
    (codes "d/e", directory)
    ∷ (codes "d/e/10", file (codes "ten"))
    ∷ (codes "d/e/2", file (codes "zwei"))
    ∷ []

pub update-files : update os files d e (pos 2) (codes "zwei") ≡ Outcome.ok (files_updated, true)
unfolding update exists file_path raddish.Crud.Store.write_over raddish.Std.Files.opens_for_write
    Map.insert
update-files = refl

update-Updated_example : Updated files files_updated (file_path d e (pos 2)) (codes "zwei") true
update-Updated_example =
    update-Updated os files files_updated d e (pos 2) (codes "zwei") true update-files

abbrev files_deleted : Nodes
files_deleted = (codes "d/e", directory) ∷ (codes "d/e/10", file (codes "ten")) ∷ []

pub del-files : del os files d e (pos 2) ≡ Outcome.ok (files_deleted, true)
unfolding del exists file_path raddish.Std.Files.erase
del-files = refl

del-Deleted_example : Deleted files files_deleted (file_path d e (pos 2)) true
del-Deleted_example = del-Deleted os files files_deleted d e (pos 2) true del-files

list-files : list os files d e ≡ Outcome.ok (pos 2 ∷ pos 10 ∷ [])
unfolding list exists entity_path raddish.Std.Files.is_directory raddish.Crud.Store.collect_ids
    raddish.Std.Files.entries raddish.Std.Numbers.stoi sort
list-files = refl

list-IsSorted_example : IsSorted (pos 2 ∷ pos 10 ∷ [])
list-IsSorted_example = list-IsSorted os files d e (pos 2 ∷ pos 10 ∷ []) list-files

extract_shoes : extract_elements (codes "//Shoes//42") ≡ Outcome.ok (some (codes "Shoes", pos 42))
unfolding extract_elements raddish.Crud.Target.id_group raddish.Std.Numbers.stoi
extract_shoes = refl

extract_elements-Form_example : Form (codes "//Shoes//42") (codes "Shoes") (pos 42)
extract_elements-Form_example =
    extract_elements-Form (codes "//Shoes//42") (codes "Shoes") (pos 42) extract_shoes

file_extension_lem_example : file_extension (codes "a.b.html") ≡ codes "html"
file_extension_lem_example =
    file_extension_lem (codes "a.b") (codes "html") (λ p. cc) (refl, (refl, (refl, (refl, tt))))

abbrev pub config_info : ConfigInfo
config_info = record {
  port_num = pos 80;
  location_to_handler =
      (codes "/", codes "NotFoundHandler") ∷ (codes "/echo", codes "EchoRequestHandler") ∷ [];
  location_to_directives = [];
}

abbrev pub request_of : Http.Verb → Bytes → Bytes → Request
request_of method target body = record {
  method = method;
  target = target;
  version = 11;
  body = body;
}

dispatch_request-Allowed_example :
    Allowed 0 beast true
      (request_of Http.get (codes "/echo/x") [])
      config_info
      []
      []
      (dispatch_request 0 beast true (request_of Http.get (codes "/echo/x") []) config_info [] [])
dispatch_request-Allowed_example =
    dispatch_request-Allowed 0 beast true (request_of Http.get (codes "/echo/x") []) config_info []
      [] refl

-- JSON whose values are texts that are not empty.
abbrev parse_json : Bytes → Outcome.Outcome (Option Bytes)
parse_json [] = Outcome.ok none
parse_json (c ∷ cs) = Outcome.ok (some (c ∷ cs))

abbrev pub json : Json
json = record { Value = Bytes; parse = parse_json; dump = λ v. v; numbers = λ _. codes "[]" }

abbrev pub crud_data : RequestHandlerData
crud_data = record {
  location_path = codes "/api/";
  root = [];
  data_path = d;
  addr_info = record { host_addr = []; client_addr = [] };
}

abbrev put_reply : Reply
put_reply = record {
  response = record {
    result = Http.ok;
    version = 11;
    server = codes "Boost.Beast/318";
    content_type = codes "text/plain";
    body = codes "404 Not Found";
  };
  log_messages = codes "Completed CRUD PUT Request" ∷ [];
}

put_request :
    handle_request 0 json beast os crud_data files
      (request_of Http.put (codes "/api/e/2") (codes "zwei"))
    ≡ Outcome.ok (files_updated, put_reply)
unfolding handle_request raddish.Crud.Handler.location_prefix raddish.Crud.Handler.relative
    extract_elements raddish.Crud.Handler.switch_method raddish.Crud.Target.id_group
    raddish.Std.Numbers.stoi Http.init_response raddish.Config.Slashes.last_char Http.method_string
    raddish.Crud.Handler.put_entity update exists file_path raddish.Crud.Store.write_over
    raddish.Std.Files.opens_for_write Map.insert
put_request = refl

put-get_example :
    (value : Bytes) × (answer : Reply) × (json.parse (codes "zwei") ≡ Outcome.ok (some value))
    × (handle_request 0 json beast os crud_data files_updated
          (request_of Http.get (codes "/api/e/2") (codes "zwei"))
        ≡ Outcome.ok (files_updated, answer))
    × (answer.response.result ≡ Http.ok)
    × (answer.response.body ≡ json.dump value)
put-get_example =
    put-get 0 json beast os crud_data files files_updated
      (request_of Http.put (codes "/api/e/2") (codes "zwei")) put_reply put_request refl
      (λ path. refl)

abbrev refused_reply : Reply
refused_reply = record {
  response = record {
    result = Http.bad_request;
    version = 11;
    server = codes "Boost.Beast/318";
    content_type = codes "text/plain";
    body = codes "POST requests cannot specify an entity ID";
  };
  log_messages = codes "POST requests cannot specify an entity ID" ∷ [];
}

post_request :
    handle_request 0 json beast os crud_data files
      (request_of Http.post (codes "/api/e/2") (codes "zwei"))
    ≡ Outcome.ok (files, refused_reply)
unfolding handle_request raddish.Crud.Handler.location_prefix raddish.Crud.Handler.relative
    extract_elements raddish.Crud.Handler.switch_method raddish.Crud.Target.id_group
    raddish.Std.Numbers.stoi Http.init_response raddish.Config.Slashes.last_char Http.method_string
    raddish.Crud.Handler.refuse raddish.Crud.Handler.set_bad_request_response
post_request = refl

handle_request-SameButOne_example : SameButOne Http.post d files files
handle_request-SameButOne_example =
    handle_request-SameButOne 0 json beast os crud_data files files
      (request_of Http.post (codes "/api/e/2") (codes "zwei")) refused_reply post_request (λ p. cc)

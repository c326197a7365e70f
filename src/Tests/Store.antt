-- ===== src/Tests/Store.antt =====
-- The theorems on the store and its handler at concrete sequences of calls.
use raddish.Base.{List, [], ◌∷◌, codes, some, ◌≡◌, refl, pos}
use raddish.Std.Files.{Nodes, has_slash, read_file, opens_for_write}
use raddish.Std.Outcome
use raddish.Crud.Store.{file_path, create}
use raddish.Crud.Store.Spec.{Call, create_call, retrieve_call}
use raddish.Crud.Store.Race.{choose, write, create-race}
use raddish.Http
use raddish.Http.{Request, Reply}
use raddish.Tests.Server.{os, request_of, d, e, files}

abbrev calls : List Call
calls = create_call e (codes "new") (pos 11) ∷ retrieve_call e (pos 11) (some (codes "new")) ∷ []

choose-files : choose os files d e ≡ Outcome.ok (files, pos 11)
unfolding choose raddish.Crud.Store.list raddish.Crud.Store.next_id raddish.Crud.Store.max_element
    raddish.Crud.Store.entity_path raddish.Std.Files.exists raddish.Std.Map.lookup
    raddish.Std.Files.is_directory raddish.Crud.Store.ensure_directory
    raddish.Crud.Store.collect_ids raddish.Std.Files.entries raddish.Std.Numbers.stoi
    raddish.Crud.Store.sort
choose-files = refl

abbrev written : Nodes
written = (write os files d e (pos 11) (codes "one")).0

create-race_example :
    (create os files d e (codes "one") ≡ Outcome.ok (write os files d e (pos 11) (codes "one")))
    × ((write os files d e (pos 11) (codes "one")).1 ≡ pos 11)
    × ((write os written d e (pos 11) (codes "two")).1 ≡ pos 11)
    × (read_file (write os written d e (pos 11) (codes "two")).0 (file_path d e (pos 11))
        ≡ some (codes "two"))
unfolding opens_for_write raddish.Std.Files.is_directory raddish.Std.Map.lookup write
    raddish.Crud.Store.write_new file_path raddish.Std.Map.insert
create-race_example =
    create-race os d e files files files (pos 11) (pos 11) (codes "one") (codes "two") choose-files
      choose-files refl refl

abbrev new_request : Request
new_request = request_of Http.post (codes "/api/e") (codes "new")

abbrev new_reply : Reply
new_reply = record {
  response = record {
    result = Http.ok;
    version = 11;
    server = codes "Boost.Beast/318";
    content_type = codes "application/json";
    body = codes "{\"id\": 11}";
  };
  log_messages = codes "Completed CRUD POST Request" ∷ [];
}

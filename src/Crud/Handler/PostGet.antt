-- ===== src/Crud/Handler/PostGet.antt =====
-- A POST and a GET of src/crud_request_handler.cc, one after the other.
use raddish.Base.{◌++◌, Bytes, codes, some, ℤ, ◌≡◌}
use raddish.Std.Files.{Nodes, System}
use raddish.Std.Numbers.{to_string}
use raddish.Std.Outcome.{ok}
use raddish.Http
use raddish.Http.{Reply}
use raddish.Crud.Store.{create}
use raddish.Crud.Handler.{Json}

-- The body of an answer to a POST.
abbrev pub id_body : ℤ → Bytes
id_body id = codes "{\"id\": " ++ (to_string id ++ codes "}")

-- What a POST that is answered by 200 did.
record Posted (json : Json) (os : System) (data_path : Bytes) (fs fs' : Nodes) (body entity : Bytes)
    (reply : Reply) : Type 0 where
  id : ℤ
  val : json.Value
  parsed : json.parse body ≡ ok (some val)
  created : create os fs data_path entity (json.dump val) ≡ ok (fs', id)
  shown : reply.response.body ≡ id_body id

-- ===== src/Crud/Handler/RoundTrip.antt =====
-- A PUT and a GET of src/crud_request_handler.cc, one after the other.
use raddish.Base.{
  [], ◌∷◌, ℕ, Bool, true, false, Bytes, Option, none, some, ℤ, is_zero, ◌≡◌, inl, inr, refl, ◌∙◌,
  ap, Bool-cases, Option-cases,
}
use raddish.Std.Files.{Nodes, System}
use raddish.Std.Outcome.{ok, >>=-eq-ok}
use raddish.Http
use raddish.Http.{get, put, Request, Response, Beast, RequestHandlerData, Reply, init_response}
use raddish.Crud.Store.{file_path, update}
use raddish.Crud.Store.Changes.{retrieve-update}
use raddish.Crud.Handler.{
  Json, get_entity, put_entity, switch_method, handle_request, refuse, with_elements, completed,
  location_prefix, relative, updated_response, found_response, set_bad_request_response,
  set_internal_server_error_response,
}
use raddish.Crud.Handler.Answers.{returned}
use raddish.Crud.Target.{extract_elements}

-- What a PUT that is answered by 200 did.
pub record Stored (json : Json) (os : System) (data_path : Bytes) (fs fs' : Nodes)
    (body entity : Bytes) (id : ℤ) : Type 0 where
  pub has_id : is_zero id ≡ false
  pub value : json.Value
  pub parsed : json.parse body ≡ ok (some value)
  pub updated : update os fs data_path entity id (json.dump value) ≡ ok (fs', true)

module _ (json : Json) (os : System) (data_path : Bytes) where
  put_entity-Stored :
      (fs fs' : Nodes) (res res' : Response) (body entity : Bytes) (id : ℤ)
      → is_zero id ≡ false
      → put_entity json os data_path fs res id entity body ≡ ok (fs', res')
      → res'.result ≡ Http.ok
      → Stored json os data_path fs fs' body entity id
  unfolding put_entity set_bad_request_response set_internal_server_error_response
  put_entity-Stored fs fs' res res' body entity id z h s =
      let (body_parsed, taken, h1) = >>=-eq-ok (json.parse body) _ h in
      elim (Option-cases body_parsed) [
        | inl e ↦ let (_, shown) = returned (rw e at h1) in cc (ap (λ r. r.result) shown ∙ s)
        | inr (v, e) ↦
            let ((fs1, opened), made, q) =
              >>=-eq-ok (update os fs data_path entity id (json.dump v)) _ (rw e at h1) in
            let (same, shown) = returned q in
            let answer : opened ≡ true = opened_of opened (ap (λ r. r.result) shown ∙ s) in
            record {
              has_id = z;
              value = v;
              parsed = taken ∙ ap ok e;
              updated = made ∙ (λ i. ok (same i, answer i));
            }
      ]
    where
      opened_of :
          (opened : Bool)
          → (updated_response json os data_path fs res opened).result ≡ Http.ok
          → opened ≡ true
      opened_of true s = refl
      opened_of false s = cc s

  switch_method-Stored :
      (fs fs' : Nodes) (res : Response) (body entity : Bytes) (id : ℤ) (reply : Reply)
      → switch_method json os data_path fs res put body entity id ≡ ok (fs', reply)
      → reply.response.result ≡ Http.ok
      → Stored json os data_path fs fs' body entity id
  unfolding switch_method refuse set_bad_request_response
  switch_method-Stored fs fs' res body entity id reply h s = elim (Bool-cases (is_zero id)) [
    | inl e ↦
        let (_, shown) = returned (rw (e, switch_method) at h) in
        cc (ap (λ r. r.response.result) shown ∙ s)
    | inr e ↦
        let ((fs1, response), made, q) =
          >>=-eq-ok (put_entity json os data_path fs res id entity body) _
            (rw (e, switch_method) at h) in
        let (same, shown) = returned q in
        put_entity-Stored fs fs' res response body entity id e (made ∙ (λ i. ok (same i, response)))
          (ap (λ r. r.response.result) shown ∙ s)
  ]

  switch_method-get :
      (fs fs' : Nodes) (res : Response) (body entity : Bytes) (id : ℤ)
      → (p : Stored json os data_path fs fs' body entity id)
      → os.can_read fs' (file_path data_path entity id) ≡ true
      → switch_method json os data_path fs' res get body entity id
        ≡ ok (
          fs',
          record {
            response = found_response json os data_path fs' res (some (json.dump p.value));
            log_messages = (completed get) ∷ [];
          },
        )
  unfolding switch_method get_entity
  switch_method-get fs fs' res body entity id p r = rw (
    p.has_id,
    get_entity,
    retrieve-update os fs fs' data_path entity id (json.dump p.value) p.updated r,
  )

-- The two requests, behind the parts that they share.
with_elements-put-get :
    (json : Json) (os : System) (data_path : Bytes) (fs fs' : Nodes) (res res' : Response)
    (body : Bytes) (elements : Option (Bytes × ℤ)) (reply : Reply)
    → with_elements json os data_path fs res put body elements ≡ ok (fs', reply)
    → reply.response.result ≡ Http.ok
    → ((path : Bytes) → os.can_read fs' path ≡ true)
    → (value : json.Value) × (answer : Reply) × (json.parse body ≡ ok (some value))
      × (with_elements json os data_path fs' res' get body elements ≡ ok (fs', answer))
      × (answer.response.result ≡ Http.ok)
      × (answer.response.body ≡ json.dump value)
unfolding refuse set_bad_request_response
with_elements-put-get json os data_path fs fs' res res' body none reply h s r =
    cc (ap (λ a. a.response.result) ((returned h).1) ∙ s)
with_elements-put-get json os data_path fs fs' res res' body (some (entity, id)) reply h s r =
    let p = switch_method-Stored json os data_path fs fs' res body entity id reply h s in
    (
      p.value,
      _,
      p.parsed,
      switch_method-get json os data_path fs fs' res' body entity id p
          (r (file_path data_path entity id)),
      refl,
      refl,
    )

-- A PUT that is answered by 200 had a JSON body, and a GET of the same target after it is
-- answered by 200 with the dump of that value, if the files can be read.
pub put-get :
    (stray : ℕ) (json : Json) (beast : Beast) (os : System) (config : RequestHandlerData)
    (fs fs' : Nodes) (request : Request) (reply : Reply)
    → handle_request stray json beast os config fs (record request { method = put })
      ≡ ok (fs', reply)
    → reply.response.result ≡ Http.ok
    → ((path : Bytes) → os.can_read fs' path ≡ true)
    → (value : json.Value) × (answer : Reply) × (json.parse request.body ≡ ok (some value))
      × (handle_request stray json beast os config fs' (record request { method = get })
          ≡ ok (fs', answer))
      × (answer.response.result ≡ Http.ok)
      × (answer.response.body ≡ json.dump value)
unfolding handle_request
put-get stray json beast os config fs fs' request reply h s r =
    let (location, a, h1) = >>=-eq-ok (location_prefix stray config.location_path) _ h in
    let (relative_path, b, h2) = >>=-eq-ok (relative request.target location) _ h1 in
    let (elements, c, h3) = >>=-eq-ok (extract_elements relative_path) _ h2 in
    let (value, answer, parsed, got, status, content) =
      with_elements-put-get json os config.data_path fs fs'
        (init_response beast (record request { method = put }))
        (init_response beast (record request { method = get })) request.body elements reply h3 s
        r in
    (value, answer, parsed, rw (a, b, c) got, status, content)

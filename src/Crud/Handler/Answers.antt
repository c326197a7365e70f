-- ===== src/Crud/Handler/Answers.antt =====
-- Which requests change the files of the store.
use raddish.Base.{
  ℕ, Bool, true, false, Bytes, Option, none, some, ℤ, pos, negsuc, zero, suc, is_zero, ◌≡◌, ◌≢◌,
  ◌⊎◌, inl, inr, refl, ◌∙◌, ap, sym, subst, Bool-cases, arith, Option-cases, equal, equal_iff,
}
use raddish.Std.Files.{Nodes, System, read_file}
use raddish.Std.Outcome.{Outcome, ok, >>=-eq-ok}
use raddish.Http
use raddish.Http.{
  get, post, put, delete, other, Verb, Request, Response, Beast, RequestHandlerData, Reply,
  init_response,
}
use raddish.Crud.Store.{file_path, create, retrieve, update, del, list}
use raddish.Crud.Store.Fresh.{Created, NotCreated, create-Created}
use raddish.Crud.Store.Changes.{Updated, update-Updated, del-Kept}
use raddish.Crud.Handler.{
  id_response, completed, Handled, invalid_format, post_with_id, put_without_id, delete_without_id,
  Json, get_entity, post_entity, put_entity, del_entity, switch_method, handle_request, refuse,
  with_elements, logged, created_response, updated_response, deleted_response, location_prefix,
  relative, Answer,
}
use raddish.Crud.Target.{extract_elements}

-- The regular files are as they were.
abbrev Same : Nodes → Nodes → Type 0
Same fs fs' = (j : Bytes) → read_file fs' j ≡ read_file fs j

-- The regular files are as they were; or the method is POST, and the one file that is not is new and
-- has the number -1 of an entity.
abbrev pub SameButOne : Verb → Bytes → Nodes → Nodes → Type 0
SameButOne method data_path fs fs' =
    Same fs fs'
    ⊎ ((method ≡ post)
        × ((entity : Bytes) × (read_file fs (file_path data_path entity (negsuc 0)) ≡ none)
            × ((j : Bytes)
                → j ≢ file_path data_path entity (negsuc 0)
                → read_file fs' j ≡ read_file fs j)))

-- The parts of a pair that a call returns.
pub returned {ℓ} :
    {A : Type ℓ} {fs fs' : Nodes} {a b : A}
    → ◌≡◌ {A = Outcome (Nodes × A)} (ok (fs, a)) (ok (fs', b))
    → (fs ≡ fs') × (a ≡ b)
returned {A = A} {fs = fs} {fs' = fs'} {a = a} {b = b} h =
    let p : ◌≡◌ {A = Nodes × A} (fs, a) (fs', b) = cc h in (ap (λ p. p.0) p, ap (λ p. p.1) p)

Same-nodes : {fs fs' : Nodes} → fs ≡ fs' → Same fs fs'
Same-nodes h j = ap (λ (m : Nodes). read_file m j) (sym h)

module _ (json : Json) (os : System) (data_path : Bytes) (fs : Nodes) (res : Response) where
  -- An answer that is not 200 leaves the files.
  abbrev Refusal : Verb → Answer → Type 0
  Refusal method answer =
      (fs' : Nodes) (res' : Response)
      → answer ≡ ok (fs', res')
      → res'.result ≢ Http.ok
      → SameButOne method data_path fs fs'

  get_entity-Refusal :
      (id : ℤ) (entity : Bytes) → Refusal get (get_entity json os data_path fs res id entity)
  unfolding get_entity
  get_entity-Refusal id entity fs' res' h n = elim (Bool-cases (is_zero id)) [
    | inl e ↦
        let (ids, _, q) = >>=-eq-ok (list os fs data_path entity) _ (rw (e, get_entity) at h) in
        inl (Same-nodes ((returned q).0))
    | inr e ↦
        let (content, _, q) =
          >>=-eq-ok (retrieve os fs data_path entity id) _ (rw (e, get_entity) at h) in
        inl (Same-nodes ((returned q).0))
  ]

  Created-Refusal :
      (fs' : Nodes) (entity content : Bytes) (id : ℤ)
      → Created fs fs' data_path entity content id ⊎ NotCreated fs fs' id
      → (created_response json os data_path fs res id).result ≢ Http.ok
      → SameButOne post data_path fs fs'
  unfolding id_response
  Created-Refusal fs' entity content id (inr c) n = inl c.kept
  Created-Refusal fs' entity content (pos m) (inl c) n = absurd (n refl)
  Created-Refusal fs' entity content (negsuc zero) (inl c) n = inr (refl, (entity, c.fresh, c.kept))
  Created-Refusal fs' entity content (negsuc (suc m)) (inl c) n = absurd (n refl)

  post_entity-Refusal :
      (entity body : Bytes) → Refusal post (post_entity json os data_path fs res entity body)
  unfolding post_entity
  post_entity-Refusal entity body fs' res' h n =
      let (parsed, _, h1) = >>=-eq-ok (json.parse body) _ h in
      elim (Option-cases parsed) [
        | inl e ↦ inl (Same-nodes ((returned (rw e at h1)).0))
        | inr (v, e) ↦
            let ((fs1, id), made, q) =
              >>=-eq-ok (create os fs data_path entity (json.dump v)) _ (rw e at h1) in
            let (same, shown) = returned q in
            subst (λ (m : Nodes). SameButOne post data_path fs m) same
              (Created-Refusal fs1 entity (json.dump v) id
                (create-Created os fs fs1 data_path entity (json.dump v) id made)
                (λ p. n (ap (λ r. r.result) (sym shown) ∙ p)))
      ]

  Updated-Refusal :
      (fs' : Nodes) (path content : Bytes) (opened : Bool)
      → Updated fs fs' path content opened
      → (updated_response json os data_path fs res opened).result ≢ Http.ok
      → Same fs fs'
  Updated-Refusal fs' path content true u n j = absurd (n refl)
  Updated-Refusal fs' path content false u n j = elim (Bool-cases (equal path j)) [
    | inl e ↦
        subst (λ i. read_file fs' i ≡ read_file fs i) ((equal_iff path j).0 e) (u.refused refl)
    | inr e ↦ u.kept j (λ p. ground (arith, equal_iff path j))
  ]

  put_entity-Refusal :
      (id : ℤ) (entity body : Bytes)
      → Refusal put (put_entity json os data_path fs res id entity body)
  unfolding put_entity
  put_entity-Refusal id entity body fs' res' h n =
      let (parsed, _, h1) = >>=-eq-ok (json.parse body) _ h in
      elim (Option-cases parsed) [
        | inl e ↦ inl (Same-nodes ((returned (rw e at h1)).0))
        | inr (v, e) ↦
            let ((fs1, opened), made, q) =
              >>=-eq-ok (update os fs data_path entity id (json.dump v)) _ (rw e at h1) in
            let (same, shown) = returned q in
            let kept =
              Updated-Refusal fs1 (file_path data_path entity id) (json.dump v) opened
                (update-Updated os fs fs1 data_path entity id (json.dump v) opened made)
                (λ p. n (ap (λ r. r.result) (sym shown) ∙ p)) in
            inl (λ j. Same-nodes same j ∙ kept j)
      ]

  deleted-Refusal :
      (fs' : Nodes) (entity : Bytes) (id : ℤ) (existed : Bool)
      → del os fs data_path entity id ≡ ok (fs', existed)
      → (deleted_response json os data_path fs res existed).result ≢ Http.ok
      → Same fs fs'
  deleted-Refusal fs' entity id true h n j = absurd (n refl)
  deleted-Refusal fs' entity id false h n j = del-Kept os fs fs' data_path entity id h j

  del_entity-Refusal :
      (id : ℤ) (entity : Bytes) → Refusal delete (del_entity json os data_path fs res id entity)
  unfolding del_entity
  del_entity-Refusal id entity fs' res' h n =
      let ((fs1, existed), made, q) = >>=-eq-ok (del os fs data_path entity id) _ h in
      let (same, shown) = returned q in
      let kept =
        deleted-Refusal fs1 entity id existed made (λ p. n (ap (λ r. r.result) (sym shown) ∙ p)) in
      inl (λ j. Same-nodes same j ∙ kept j)

  -- The same of a handler's reply.
  abbrev Unchanged : Verb → Handled → Type 0
  Unchanged method handled =
      (fs' : Nodes) (reply : Reply)
      → handled ≡ ok (fs', reply)
      → reply.response.result ≢ Http.ok
      → SameButOne method data_path fs fs'

  logged-Unchanged :
      (method : Verb) (log_message : Bytes) (answer : Answer)
      → Refusal method answer
      → Unchanged method (logged log_message answer)
  logged-Unchanged method log_message answer r fs' reply h n =
      let ((fs1, response), made, q) = >>=-eq-ok answer _ h in
      let (same, shown) = returned q in
      subst (λ (m : Nodes). SameButOne method data_path fs m) same
        (r fs1 response made (λ p. n (ap (λ s. s.response.result) (sym shown) ∙ p)))

  refuse-Unchanged :
      (method : Verb) (message : Bytes) → Unchanged method (refuse json os data_path fs res message)
  unfolding refuse
  refuse-Unchanged method message fs' reply h n = inl (Same-nodes ((returned h).0))

  switch_method-Unchanged :
      (method : Verb) (body entity : Bytes) (id : ℤ)
      → Unchanged method (switch_method json os data_path fs res method body entity id)
  unfolding switch_method
  switch_method-Unchanged get body entity id =
      logged-Unchanged get (completed get) _ (get_entity-Refusal id entity)
  switch_method-Unchanged post body entity id =
      elim (is_zero id)
        as (λ b. Unchanged post (elim b [
          | true ↦ logged (completed post) (post_entity json os data_path fs res entity body)
          | false ↦ refuse json os data_path fs res post_with_id
        ])) [
          | true ↦ logged-Unchanged post (completed post) _ (post_entity-Refusal entity body)
          | false ↦ refuse-Unchanged post post_with_id
        ]
  switch_method-Unchanged put body entity id =
      elim (is_zero id)
        as (λ b. Unchanged put (elim b [
          | true ↦ refuse json os data_path fs res put_without_id
          | false ↦ logged (completed put) (put_entity json os data_path fs res id entity body)
        ])) [
          | true ↦ refuse-Unchanged put put_without_id
          | false ↦ logged-Unchanged put (completed put) _ (put_entity-Refusal id entity body)
        ]
  switch_method-Unchanged delete body entity id =
      elim (is_zero id)
        as (λ b. Unchanged delete (elim b [
          | true ↦ refuse json os data_path fs res delete_without_id
          | false ↦ logged (completed delete) (del_entity json os data_path fs res id entity)
        ])) [
          | true ↦ refuse-Unchanged delete delete_without_id
          | false ↦ logged-Unchanged delete (completed delete) _ (del_entity-Refusal id entity)
        ]
  switch_method-Unchanged (other name) body entity id =
      λ fs' reply h n. inl (Same-nodes ((returned h).0))

  with_elements-Unchanged :
      (method : Verb) (body : Bytes) (elements : Option (Bytes × ℤ))
      → Unchanged method (with_elements json os data_path fs res method body elements)
  with_elements-Unchanged method body none = refuse-Unchanged method invalid_format
  with_elements-Unchanged method body (some (entity, id)) =
      switch_method-Unchanged method body entity id

-- If the CRUD handler replies with a status other than 200, then every regular file is as it was;
-- or the request is a POST, and there is an entity whose file of the number -1 did not exist, such
-- that every file but that one is as it was.
pub handle_request-SameButOne :
    (stray : ℕ) (json : Json) (beast : Beast) (os : System) (config : RequestHandlerData)
    (fs fs' : Nodes) (request : Request) (reply : Reply)
    → handle_request stray json beast os config fs request ≡ ok (fs', reply)
    → reply.response.result ≢ Http.ok
    → SameButOne request.method config.data_path fs fs'
unfolding handle_request
handle_request-SameButOne stray json beast os config fs fs' request reply h n =
    let (location, _, h1) = >>=-eq-ok (location_prefix stray config.location_path) _ h in
    let (relative_path, _, h2) = >>=-eq-ok (relative request.target location) _ h1 in
    let (elements, _, h3) = >>=-eq-ok (extract_elements relative_path) _ h2 in
    with_elements-Unchanged json os config.data_path fs (init_response beast request) request.method
      request.body elements fs' reply h3 n

-- ===== src/Crud/Handler/Once.antt =====
-- `handle_request` of src/crud_request_handler.cc calls `log_request` once, if it returns.
use raddish.Base.{ℕ, true, false, Bytes, Option, none, some, ℤ, is_zero, refl}
use raddish.Std.Files.{Nodes, System}
use raddish.Http
use raddish.Http.{Verb, Request, Response, Beast, RequestHandlerData, init_response}
use raddish.Handlers.Once.{Once, returned-Once, bind-Once}
use raddish.Crud.Target.{extract_elements}
use raddish.Crud.Handler.{
  Json, Answer, logged, refuse, switch_method, with_elements, handle_request, completed,
  location_prefix, relative, post_entity, put_entity, del_entity, post_with_id, put_without_id,
  delete_without_id,
}

module _ (json : Json) (os : System) (data_path : Bytes) (fs : Nodes) (res : Response) where
  logged-Once : (log_message : Bytes) (answer : Answer) → Once (logged log_message answer)
  logged-Once log_message answer = bind-Once answer _ (λ a. returned-Once a.0 _ (log_message, refl))

  refuse-Once : (message : Bytes) → Once (refuse json os data_path fs res message)
  unfolding refuse
  refuse-Once message = returned-Once fs _ (message, refl)

  switch_method-Once :
      (method : Verb) (body entity : Bytes) (id : ℤ)
      → Once (switch_method json os data_path fs res method body entity id)
  unfolding switch_method
  switch_method-Once Http.get body entity id = logged-Once _ _
  switch_method-Once Http.post body entity id =
      elim (is_zero id)
        as (λ b. Once (elim b [
          | true ↦ logged (completed Http.post) (post_entity json os data_path fs res entity body)
          | false ↦ refuse json os data_path fs res post_with_id
        ])) [ true ↦ logged-Once _ _ | false ↦ refuse-Once _ ]
  switch_method-Once Http.put body entity id =
      elim (is_zero id)
        as (λ b. Once (elim b [
          | true ↦ refuse json os data_path fs res put_without_id
          | false ↦ logged (completed Http.put) (put_entity json os data_path fs res id entity body)
        ])) [ true ↦ refuse-Once _ | false ↦ logged-Once _ _ ]
  switch_method-Once Http.delete body entity id =
      elim (is_zero id)
        as (λ b. Once (elim b [
          | true ↦ refuse json os data_path fs res delete_without_id
          | false ↦ logged (completed Http.delete) (del_entity json os data_path fs res id entity)
        ])) [ true ↦ refuse-Once _ | false ↦ logged-Once _ _ ]
  switch_method-Once (Http.other name) body entity id = returned-Once fs _ (_, refl)

  with_elements-Once :
      (method : Verb) (body : Bytes) (elements : Option (Bytes × ℤ))
      → Once (with_elements json os data_path fs res method body elements)
  with_elements-Once method body none = refuse-Once _
  with_elements-Once method body (some (entity, id)) = switch_method-Once method body entity id

pub handle_request-Once :
    (stray : ℕ) (json : Json) (beast : Beast) (os : System) (config : RequestHandlerData)
    (fs : Nodes) (request : Request)
    → Once (handle_request stray json beast os config fs request)
unfolding handle_request
handle_request-Once stray json beast os config fs request =
    bind-Once (location_prefix stray config.location_path) _ (λ location.
      bind-Once (relative request.target location) _ (λ relative_path.
        bind-Once (extract_elements relative_path) _ (λ elements.
          with_elements-Once json os config.data_path fs (init_response beast request)
            request.method request.body elements)))

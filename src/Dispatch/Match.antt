-- ===== src/Dispatch/Match.antt =====
-- The location that the loop of src/request_dispatcher.cc picks.
use raddish.Base.{
  ℕ, ◌≤◌, Bool, true, false, Bytes, Option, none, some, length, ◌≡◌, refl, ◌∙◌, sym, arith, ◌==◌,
  inl, inr,
}
use raddish.Std.Map.{HasEntry}
use raddish.Config.Settings.{ConfigInfo}
use raddish.Http.{Beast, Request, bad_request}
use raddish.Dispatch.{
  Handler, get_factory, Search, with_slash, no_match, Dispatched, refused, handled, exits,
  undefined, call_factory, handler_data, dispatch_request,
}
use raddish.Dispatch.Locations.{
  LoopSpec, search_loop-LoopSpec, bound_of, Every, Matches, length-with_slash-pos, Every-weaken,
}

-- What the dispatcher may do with a request, over the configuration's locations.
abbrev pub Allowed : ℕ → Beast → Bool → Request → ConfigInfo → Bytes → Bytes → Dispatched → Type 0
Allowed stray beast is_valid request config host client (refused response) =
    (is_valid ≡ false) × (response.result ≡ bad_request)
Allowed stray beast is_valid request config host client (handled h d) =
    (name : Bytes) × HasEntry d.location_path name config.location_to_handler
    × (get_factory name ≡ some h)
    × Matches stray request.target d.location_path
    × Every
        (λ l.
          Matches stray request.target l
          → length (with_slash stray l) ≤ length (with_slash stray d.location_path))
        config.location_to_handler
    × (d ≡ handler_data config d.location_path host client)
Allowed stray beast is_valid request config host client exits =
    (l : Bytes) × (name : Bytes) × HasEntry l name config.location_to_handler
    × Matches stray request.target l
    × (get_factory name ≡ none)
Allowed stray beast is_valid request config host client undefined =
    Every (λ l. ¬ Matches stray request.target l) config.location_to_handler

call_factory-Allowed :
    (stray : ℕ) (beast : Beast) (is_valid : Bool) (request : Request) (config : ConfigInfo)
    (host client : Bytes) (o : Option Search)
    → (stray == b'/') ≡ false
    → LoopSpec stray request.target config.location_to_handler no_match o
    → Allowed stray beast is_valid request config host client (call_factory config host client o)
unfolding handler_data bound_of
call_factory-Allowed stray beast is_valid request config host client none other spec = spec
call_factory-Allowed stray beast is_valid request config host client (some s) other spec =
    go s.longest s.factory spec
  where
    go :
        (longest : Bytes) (f : Option Handler)
        → LoopSpec stray request.target config.location_to_handler no_match
            (some (record { longest = longest; factory = f }))
        → Allowed stray beast is_valid request config host client
            (call_factory config host client (some (record { longest = longest; factory = f })))
    go longest none (_, _, every, _) =
        Every-weaken _ _ config.location_to_handler
          (λ l below m. absurd (omega (arith, below m, length-with_slash-pos stray l other))) every
    go longest (some h) (_, _, every, inl e) = cc e
    go longest (some h) (_, _, every, inr (h', name, e, entry, m, g)) =
        (name, entry, g ∙ sym e, m, every, refl)

-- A request is refused with a 400 only if it is not valid. Otherwise its handler is the one
-- registered for a location that is a prefix of the path, both with a slash at the end, and no
-- other such location is longer; it gets the directives of that location. The server exits only if
-- a location that matches names no registered handler, and the behaviour is undefined only if no
-- location matches. The byte before an empty string is taken to be no slash.
pub dispatch_request-Allowed :
    (stray : ℕ) (beast : Beast) (is_valid : Bool) (request : Request) (config : ConfigInfo)
    (host client : Bytes)
    → (stray == b'/') ≡ false
    → Allowed stray beast is_valid request config host client
        (dispatch_request stray beast is_valid request config host client)
unfolding dispatch_request
dispatch_request-Allowed stray beast false request config host client other = (refl, refl)
dispatch_request-Allowed stray beast true request config host client other =
    call_factory-Allowed stray beast true request config host client _ other
      (search_loop-LoopSpec stray request.target config.location_to_handler no_match (λ _. refl))

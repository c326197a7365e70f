-- ===== src/Serve/EndToEnd.antt =====
-- From the text of a configuration to the handler of a request.
use mathlib.Core.Option.{or_else}
use raddish.Base.{
  ℕ, ◌≤◌, true, false, List, [], ◌∷◌, Bytes, codes, Option, none, some, equal_iff, ◌==◌, pos,
  negsuc, length, ◌≡◌, refl, ◌∙◌, sym, ap, subst, inl, inr,
}
use raddish.Std.Map
use raddish.Std.Map.{Map, HasEntry, HasEntry-lookup}
use raddish.Config.Printer.{to_string}
use raddish.Config.Printer.Lexing.{IsPrintable}
use raddish.Config.Parser.{parse, accepted}
use raddish.Config.RoundTrip.{parse-to_string}
use raddish.Config.Settings.{ConfigInfo, get_server_settings_inner, ok, unquote, max_port}
use raddish.Config.Settings.Spec.{
  Item, port_item, location_item, to_statements, IsWellFormed, Holds, HasItem, port_at, handler_at,
  argument_at,
}
use raddish.Config.Settings.Items.{get_server_settings_inner-items}
use raddish.Http.{Beast, Request, RequestHandlerData}
use raddish.Dispatch.{
  Handler, Dispatched, refused, handled, exits, undefined, get_factory, with_slash, handler_data,
  dispatch_request, directive,
}
use raddish.Dispatch.Match.{Allowed, dispatch_request-Allowed}
use raddish.Dispatch.Locations.{Every, Matches}

-- Each handler that an item names is registered.
abbrev pub AllRegistered : List Item → Type 0
AllRegistered [] = Unit
AllRegistered (port_item _ ∷ is) = AllRegistered is
AllRegistered (location_item _ handler _ ∷ is) =
    ((h : Handler) × (get_factory handler ≡ some h)) × AllRegistered is

registered-HasItem :
    (l name : Bytes) (is : List Item)
    → AllRegistered is
    → HasItem l name is
    → (h : Handler) × (get_factory name ≡ some h)
registered-HasItem l name [] r i = elim i [ ]
registered-HasItem l name (port_item _ ∷ is) r i = registered-HasItem l name is r i
registered-HasItem l name (location_item path handler _ ∷ is) ((h, e), r) (inl (_, q)) =
    (h, ap get_factory (sym q) ∙ e)
registered-HasItem l name (location_item path handler _ ∷ is) (_, r) (inr i) =
    registered-HasItem l name is r i

or_else-right : (o : Option Bytes) (b : Bytes) → (n : Bytes) × (or_else o (some b) ≡ some n)
unfolding or_else
or_else-right none b = (b, refl)
or_else-right (some a) b = (a, refl)

or_else-left : (o o' : Option Bytes) (n : Bytes) → o ≡ some n → or_else o o' ≡ some n
unfolding or_else
or_else-left o o' n h = rw h

handler_at-HasItem :
    (l name : Bytes) (is : List Item) → HasItem l name is → (n : Bytes) × (handler_at l is ≡ some n)
handler_at-HasItem l name [] i = elim i [ ]
handler_at-HasItem l name (port_item _ ∷ is) i = handler_at-HasItem l name is i
handler_at-HasItem l name (location_item path handler _ ∷ is) (inl (p, _)) =
    rw ((equal_iff (unquote path) l).1 p) (or_else-right (handler_at l is) handler)
handler_at-HasItem l name (location_item path handler _ ∷ is) (inr i) =
    let (n, e) = handler_at-HasItem l name is i in (n, or_else-left (handler_at l is) _ n e)

-- A location of the items is one of the settings.
entry-HasItem :
    (l name : Bytes) (is : List Item) (info : ConfigInfo)
    → Holds is info
    → HasItem l name is
    → (n : Bytes) × HasEntry l n info.location_to_handler
entry-HasItem l name is info h i =
    let (n, e) = handler_at-HasItem l name is i in
    (n, HasEntry-lookup l n info.location_to_handler (h.handlers l ∙ e))

Every-HasEntry :
    (P : Bytes → Type 0) (l n : Bytes) (m : Map Bytes) → Every P m → HasEntry l n m → P l
Every-HasEntry P l n [] e h = elim h [ ]
Every-HasEntry P l n ((l', _) ∷ m) (p, e) (inl (q, _)) = subst P (sym q) p
Every-HasEntry P l n (_ ∷ m) (_, e) (inr h) = Every-HasEntry P l n m e h

-- The handler that a request is meant to get, read off the items.
pub record Routed (stray : ℕ) (is : List Item) (target host client : Bytes) (h : Handler)
    (config : RequestHandlerData) : Type 0 where
  pub name : Bytes
  pub listed : HasItem config.location_path name is
  pub registered : get_factory name ≡ some h
  pub matches : Matches stray target config.location_path
  pub longest :
      (l n : Bytes)
      → HasItem l n is
      → Matches stray target l
      → length (with_slash stray l) ≤ length (with_slash stray config.location_path)
  pub root : config.root ≡ argument_at config.location_path (codes "root") is []
  pub data_path : config.data_path ≡ argument_at config.location_path (codes "data_path") is []
  pub client_addr : config.addr_info.client_addr ≡ client
  pub host_addr : config.addr_info.host_addr ≡ host

module _ (stray : ℕ) (is : List Item) (info : ConfigInfo) (h : Holds is info) where
  directive-argument_at : (l k : Bytes) → directive info l k ≡ argument_at l k is []
  unfolding directive Map.get_or
  directive-argument_at l k = h.arguments l k

  handled-Routed :
      (beast : Beast) (request : Request) (host client : Bytes) (x : Handler)
      (config : RequestHandlerData)
      → Allowed stray beast true request info host client (handled x config)
      → Routed stray is request.target host client x config
  unfolding handler_data
  handled-Routed beast request host client x config (name, entry, g, m, every, e) = record {
    name = name;
    listed = h.entries config.location_path name entry;
    registered = g;
    matches = m;
    longest = λ l n i. longest_of l n i;
    root =
        ap (λ (c : RequestHandlerData). c.root) e
        ∙ directive-argument_at config.location_path (codes "root");
    data_path =
        ap (λ (c : RequestHandlerData). c.data_path) e
        ∙ directive-argument_at config.location_path (codes "data_path");
    client_addr = ap (λ (c : RequestHandlerData). c.addr_info.client_addr) e;
    host_addr = ap (λ (c : RequestHandlerData). c.addr_info.host_addr) e;
  }
    where
      longest_of :
          (l n : Bytes)
          → HasItem l n is
          → Matches stray request.target l
          → length (with_slash stray l) ≤ length (with_slash stray config.location_path)
      longest_of l n i =
          let (n', entry') = entry-HasItem l n is info h i in
          Every-HasEntry
            (λ l.
              Matches stray request.target l
              → length (with_slash stray l) ≤ length (with_slash stray config.location_path))
            l n' info.location_to_handler every entry'

  -- A request that matches a location of the items is handled.
  dispatched-Routed :
      (beast : Beast) (request : Request) (host client l name : Bytes) (d : Dispatched)
      → AllRegistered is
      → HasItem l name is
      → Matches stray request.target l
      → Allowed stray beast true request info host client d
      → (x : Handler) × (config : RequestHandlerData) × (d ≡ handled x config)
        × Routed stray is request.target host client x config
  dispatched-Routed beast request host client l name (refused response) r i m (e, _) = cc e
  dispatched-Routed beast request host client l name (handled x config) r i m a =
      (x, config, refl, handled-Routed beast request host client x config a)
  dispatched-Routed beast request host client l name exits r i m (l', n', entry, _, g) =
      let (x, e) = registered-HasItem l' n' is r (h.entries l' n' entry) in cc (sym g ∙ e)
  dispatched-Routed beast request host client l name undefined r i m every =
      let (n', entry) = entry-HasItem l name is info h i in
      absurd (
        Every-HasEntry (λ l. ¬ Matches stray request.target l) l n' info.location_to_handler every
          entry m)

-- From the text of a configuration to the handler. If the items are well-formed and printable, name
-- registered handlers and a port up to 65353, then their text is parsed and accepted, and a valid
-- request that matches one of the locations is handled: by the handler of a listed location that
-- matches and is not shorter than any other that does, with the root and the data path that the
-- items give to it and the addresses. The byte before an empty string is taken to be no slash.
pub dispatch-to_statements :
    (stray : ℕ) (is : List Item) (n : ℕ) (beast : Beast) (request : Request)
    (host client l name : Bytes)
    → (stray == b'/') ≡ false
    → IsWellFormed [] is
    → IsPrintable (to_statements is)
    → AllRegistered is
    → port_at (negsuc 0) is ≡ pos n
    → n ≤ max_port
    → HasItem l name is
    → Matches stray request.target l
    → (info : ConfigInfo) × (h : Handler) × (config : RequestHandlerData) × (parse
          (to_string (to_statements is) 0)
        ≡ some (accepted (to_statements is)))
      × (get_server_settings_inner stray (to_statements is) ≡ ok info)
      × (dispatch_request stray beast true request info host client ≡ handled h config)
      × Routed stray is request.target host client h config
dispatch-to_statements stray is n beast request host client l name other good printable registered
      port le i m =
    let (info, e, holds) = get_server_settings_inner-items stray is n other good port le in
    let (h, config, q, routed) =
      dispatched-Routed stray is info holds beast request host client l name _ registered i m
        (dispatch_request-Allowed stray beast true request info host client other) in
    (info, h, config, parse-to_string printable, e, q, routed)

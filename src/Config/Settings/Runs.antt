-- ===== src/Config/Settings/Runs.antt =====
-- The loops of `get_server_settings_inner`, run over such statements.
use mathlib.Core.Option.{or_else}
use raddish.Base.{
  ◌⊎◌, ℕ, true, false, List, [], ◌∷◌, ◌++◌, Bytes, ◌≡◌, refl, ◌∙◌, ap, arith, equal, equal_iff,
  ◌==◌, if◌then◌else◌, inl, inr, Bool-cases,
}
use raddish.Std.Map
use raddish.Std.Map.{HasEntry, HasEntry-insert}
use raddish.Std.Map.{Map}
use raddish.Std.Numbers.{stoi}
use raddish.Config.Tree.{Statement, Statements, append, tokens_of}
use raddish.Config.Slashes.{contains}
use raddish.Config.Slashes.Trim.{trim, has_key-trim, remove_slashes-trim}
use raddish.Config.Settings.{
  ok, return_false, Locals, unquote, directive_loop, block_loop, add_location, handle_token,
  token_loop, statement_loop,
}
use raddish.Config.Settings.Spec.{
  Item, directive_statements, to_statement, to_statements, port_value, port_at, handler_at,
  last_argument, argument_at, all_seen, IsGood, IsWellFormed, port_item, location_item, HasItem,
}

abbrev pub add_directives : Bytes → List (Bytes × Bytes) → Map (Map Bytes) → Map (Map Bytes)
add_directives l [] m = m
add_directives l ((key, argument) ∷ ds) m =
    add_directives l ds (Map.insert l (Map.insert key (unquote argument) (Map.get_or l [] m)) m)

pub block_loop-directive_statements :
    (l : Bytes) (ds : List (Bytes × Bytes)) (m : Map (Map Bytes))
    → block_loop l (directive_statements ds) m ≡ ok (add_directives l ds m)
unfolding block_loop directive_loop
block_loop-directive_statements l [] m = refl
block_loop-directive_statements l ((key, argument) ∷ ds) m = block_loop-directive_statements l ds _

abbrev pub argument_of : Bytes → Bytes → Map (Map Bytes) → Bytes
argument_of l k m = Map.get_or k [] (Map.get_or l [] m)

argument_of-insert :
    (l k path key v : Bytes) (m : Map (Map Bytes))
    → argument_of l k (Map.insert path (Map.insert key v (Map.get_or path [] m)) m)
      ≡ (if equal path l then (if equal key k then v else argument_of l k m) else argument_of l k m)
argument_of-insert l k path key v m =
    rw (Map.get_or-insert path l [] (Map.insert key v (Map.get_or path [] m)) m)
      (elim (Bool-cases (equal path l)) [
        | inl e ↦ rw e (
            Map.get_or-insert key k [] v (Map.get_or path [] m)
            ∙ ap (λ (p : Bytes). if equal key k then v else argument_of p k m)
                ((equal_iff path l).0 e))
        | inr e ↦ rw e
      ])

pub argument_of-add_directives :
    (l k path : Bytes) (ds : List (Bytes × Bytes)) (m : Map (Map Bytes))
    → argument_of l k (add_directives path ds m)
      ≡ (if equal path l then last_argument k ds (argument_of l k m) else argument_of l k m)
argument_of-add_directives l k path [] m = ground arith
argument_of-add_directives l k path ((key, argument) ∷ ds) m =
    let q : Bytes = unquote argument in
    argument_of-add_directives l k path ds _
    ∙ rw (argument_of-insert l k path key q m) (ground (arith, equal_iff path l))

abbrev pub after : Item → Locals → Locals
after (port_item argument) σ = record σ { port_num = port_value (stoi argument) }
after (location_item path handler ds) σ = record {
  port_num = σ.port_num;
  seen_locations = σ.seen_locations ++ trim (unquote path) ∷ [];
  location_to_handler = Map.insert (unquote path) handler σ.location_to_handler;
  location_to_directives = add_directives (unquote path) ds σ.location_to_directives;
}

abbrev pub after_all : List Item → Locals → Locals
after_all [] σ = σ
after_all (i ∷ is) σ = after_all is (after i σ)

module _ (stray : ℕ) (other : (stray == b'/') ≡ false) where
  pub add_location-new :
      (σ : Locals) (path handler : Bytes) (ds : List (Bytes × Bytes))
      → IsGood σ.seen_locations (location_item path handler ds)
      → add_location stray (to_statement (location_item path handler ds)) path (handler ∷ []) σ
        ≡ ok (after (location_item path handler ds) σ)
  unfolding add_location
  add_location-new σ path handler ds (one, new, _, _) = rw (
    has_key-trim stray σ.seen_locations (unquote path) other,
    new,
    block_loop-directive_statements (unquote path) ds σ.location_to_directives,
    remove_slashes-trim stray (unquote path) other one,
  )

  pub add_location-seen :
      (σ : Locals) (x : Statement) (path handler : Bytes) (more : List Bytes)
      → contains σ.seen_locations (trim (unquote path)) ≡ true
      → add_location stray x path (handler ∷ more) σ ≡ return_false
  unfolding add_location
  add_location-seen σ x path handler more seen =
      rw (has_key-trim stray σ.seen_locations (unquote path) other, seen)

  pub token_loop-item :
      (σ : Locals) (i : Item)
      → IsGood σ.seen_locations i
      → token_loop stray (to_statement i) (tokens_of (to_statement i)) σ ≡ ok (after i σ)
  unfolding token_loop handle_token equal
  token_loop-item σ (port_item argument) (n, e) = rw e
  token_loop-item σ (location_item path handler ds) (one, new, a, b) =
      rw (add_location-new σ path handler ds (one, new, a, b), a, b)

  pub statement_loop-items :
      (is : List Item) (rest : Statements) (σ : Locals)
      → IsWellFormed σ.seen_locations is
      → statement_loop stray (append (to_statements is) rest) σ
        ≡ statement_loop stray rest (after_all is σ)
  unfolding statement_loop
  statement_loop-items [] rest σ good = refl
  statement_loop-items (port_item argument ∷ is) rest σ (g, good) =
      rw (token_loop-item σ (port_item argument) g) (statement_loop-items is rest _ good)
  statement_loop-items (location_item path handler ds ∷ is) rest σ (g, good) =
      rw (token_loop-item σ (location_item path handler ds) g) (statement_loop-items is rest _ good)

-- What the loops leave in the local variables.
pub port_num-after_all :
    (is : List Item) (σ : Locals) → (after_all is σ).port_num ≡ port_at σ.port_num is
port_num-after_all [] σ = refl
port_num-after_all (port_item argument ∷ is) σ = port_num-after_all is _
port_num-after_all (location_item path handler ds ∷ is) σ = port_num-after_all is _

pub seen-after_all :
    (is : List Item) (σ : Locals) → (after_all is σ).seen_locations ≡ all_seen is σ.seen_locations
seen-after_all [] σ = refl
seen-after_all (port_item argument ∷ is) σ = seen-after_all is _
seen-after_all (location_item path handler ds ∷ is) σ = seen-after_all is _

pub lookup-after_all :
    (l : Bytes) (is : List Item) (σ : Locals)
    → Map.lookup l (after_all is σ).location_to_handler
      ≡ or_else (handler_at l is) (Map.lookup l σ.location_to_handler)
unfolding or_else
lookup-after_all l [] σ = refl
lookup-after_all l (port_item argument ∷ is) σ = lookup-after_all l is _
lookup-after_all l (location_item path handler ds ∷ is) σ =
    lookup-after_all l is _
    ∙ ground (arith, Map.lookup-insert (unquote path) l handler σ.location_to_handler)

pub argument_of-after_all :
    (l k : Bytes) (is : List Item) (σ : Locals)
    → argument_of l k (after_all is σ).location_to_directives
      ≡ argument_at l k is (argument_of l k σ.location_to_directives)
argument_of-after_all l k [] σ = refl
argument_of-after_all l k (port_item argument ∷ is) σ = argument_of-after_all l k is _
argument_of-after_all l k (location_item path handler ds ∷ is) σ =
    argument_of-after_all l k is _
    ∙ ap (argument_at l k is)
        (argument_of-add_directives l k (unquote path) ds σ.location_to_directives)

pub entries-after_all :
    (l name : Bytes) (is : List Item) (σ : Locals)
    → HasEntry l name (after_all is σ).location_to_handler
    → HasItem l name is ⊎ HasEntry l name σ.location_to_handler
entries-after_all l name [] σ h = inr h
entries-after_all l name (port_item argument ∷ is) σ h = entries-after_all l name is _ h
entries-after_all l name (location_item path handler ds ∷ is) σ h =
    elim (entries-after_all l name is _ h) [
      | inl i ↦ inl (inr i)
      | inr e ↦ elim (HasEntry-insert (unquote path) l handler name σ.location_to_handler e) [
        | inl (p, q) ↦ inl (inl (p, q))
        | inr e' ↦ inr e'
      ]
    ]

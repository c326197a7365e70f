-- ===== src/Config/Settings/Items.antt =====
-- The settings of a configuration of `port` and `location` statements.
use mathlib.Core.Option.{or_else}
use raddish.Base.{
  ◌⊎◌, ℕ, ◌≤◌, true, false, List, [], ◌∷◌, Bytes, codes, Option, none, some, ◌≡◌, refl, ◌∙◌, sym,
  ap, arith, equal, ◌==◌, pos, negsuc, inl, inr,
}
use raddish.Std.Map
use raddish.Std.Map.{HasEntry}
use raddish.Std.Map.{Map}
use raddish.Config.Tree
use raddish.Config.Tree.{Statement, simple, block, Statements, nil, cons, append, tokens_of}
use raddish.Config.Slashes.{contains}
use raddish.Config.Slashes.Trim.{trim}
use raddish.Config.Settings.{
  ConfigInfo, Flow, ok, return_false, ◌>>=◌, Locals, unquote, handle_token, token_loop,
  statement_loop, initial_locals, check_port, get_server_settings_inner, max_port,
}
use raddish.Config.Settings.Spec.{
  Item, to_statements, port_at, handler_at, all_seen, IsWellFormed, Holds, HasItem,
}
use raddish.Config.Settings.Runs.{
  after_all, add_location-seen, statement_loop-items, port_num-after_all, seen-after_all,
  lookup-after_all, argument_of-after_all, entries-after_all,
}

abbrev info_of : Locals → ConfigInfo
info_of σ = record {
  port_num = σ.port_num;
  location_to_handler = σ.location_to_handler;
  location_to_directives = σ.location_to_directives;
}

check_port-ok :
    (σ : Locals) (n : ℕ) → σ.port_num ≡ pos n → n ≤ max_port → check_port σ ≡ ok (info_of σ)
unfolding check_port
check_port-ok σ n e h = ground arith

inner_lem :
    (stray : ℕ) (c : Statements)
    → get_server_settings_inner stray c ≡ (statement_loop stray c initial_locals >>= check_port)
unfolding get_server_settings_inner
inner_lem stray c = refl

statement_loop-nil : (stray : ℕ) (σ : Locals) → statement_loop stray nil σ ≡ ok σ
unfolding statement_loop
statement_loop-nil stray σ = refl

or_else-none : (o : Option Bytes) → or_else o none ≡ o
unfolding or_else
or_else-none none = refl
or_else-none (some v) = refl

-- Well-formed items whose last port is at most 65353 are accepted, and the settings say what the
-- items say: the port, the handler of each location, and the argument of each of its directives
-- (empty for one that is not there), and no other location is there; the byte before an empty string is taken to be no slash.
pub get_server_settings_inner-items :
    (stray : ℕ) (is : List Item) (n : ℕ)
    → (stray == b'/') ≡ false
    → IsWellFormed [] is
    → port_at (negsuc 0) is ≡ pos n
    → n ≤ max_port
    → (info : ConfigInfo) × (get_server_settings_inner stray (to_statements is) ≡ ok info)
      × Holds is info
unfolding Map.get_or
get_server_settings_inner-items stray is n other good port h =
    let σ : Locals = after_all is initial_locals in
    (
      info_of σ,
      inner_lem stray (to_statements is)
          ∙ ap (λ (c : Statements). statement_loop stray c initial_locals >>= check_port)
              (sym (Tree.append-nil (to_statements is)))
          ∙ ap (λ (m : Flow Locals). m >>= check_port)
              (statement_loop-items stray other is nil initial_locals good
                ∙ statement_loop-nil stray σ)
          ∙ check_port-ok σ n (port_num-after_all is initial_locals ∙ port) h,
      record {
        port = port_num-after_all is initial_locals;
        handlers = λ l. lookup-after_all l is initial_locals ∙ or_else-none (handler_at l is);
        arguments = λ l k. argument_of-after_all l k is initial_locals;
        entries = λ l name h. named l name (entries-after_all l name is initial_locals h);
      },
    )
  where
    named : (l name : Bytes) → HasItem l name is ⊎ HasEntry l name [] → HasItem l name is
    named l name (inl i) = i
    named l name (inr e) = elim e [ ]

add_again :
    (stray : ℕ) (other : (stray == b'/') ≡ false) (σ : Locals) (path handler : Bytes)
    (block_of rest : Statements)
    → contains σ.seen_locations (trim (unquote path)) ≡ true
    → statement_loop stray (cons (block (codes "location" ∷ path ∷ handler ∷ []) block_of) rest) σ
      ≡ return_false
unfolding statement_loop token_loop handle_token equal
add_again stray other σ path handler block_of rest seen = rw (
    add_location-seen stray other σ (block (codes "location" ∷ path ∷ handler ∷ []) block_of) path
      handler [] seen)

-- A location that is seen already, up to the slashes at its end, makes the function return false,
-- whatever handler it names and whatever follows, if the items before it are well-formed and the
-- byte before an empty string is no slash.
pub get_server_settings_inner-duplicate :
    (stray : ℕ) (is : List Item) (path handler : Bytes) (block_of rest : Statements)
    → (stray == b'/') ≡ false
    → IsWellFormed [] is
    → contains (all_seen is []) (trim (unquote path)) ≡ true
    → get_server_settings_inner stray (
        append
          (to_statements is)
          (cons (block (codes "location" ∷ path ∷ handler ∷ []) block_of) rest))
      ≡ return_false
get_server_settings_inner-duplicate stray is path handler block_of rest other good seen =
    inner_lem stray _
    ∙ ap (λ (m : Flow Locals). m >>= check_port)
        (statement_loop-items stray other is _ initial_locals good
          ∙ add_again stray other (after_all is initial_locals) path handler block_of rest
              (rw (seen-after_all is initial_locals) seen))

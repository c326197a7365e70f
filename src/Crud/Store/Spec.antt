-- ===== src/Crud/Store/Spec.antt =====
-- What `CRUDStore` of src/crud_store.cc promises: a map from entities and numbers to bodies, which
-- knows no paths.
use raddish.Base.{
  Bool, true, false, List, [], ◌∷◌, Bytes, Option, none, some, ℤ, negsuc, ◌≡◌, ◌≢◌, ◌⊎◌, All,
}
use raddish.Std.Numbers.Decimal.{InRange}
use raddish.Crud.Target.{is_letter}

-- A call of the store, with its answer.
pub data Call : Type 0 where
  create_call : (entity body : Bytes) → (answer : ℤ) → Call
  retrieve_call : (entity : Bytes) → (id : ℤ) → (answer : Option Bytes) → Call
  update_call : (entity : Bytes) → (id : ℤ) → (body : Bytes) → (answer : Bool) → Call
  del_call : (entity : Bytes) → (id : ℤ) → (answer : Bool) → Call

-- The bodies that are stored.
abbrev pub Entries : Type 0
Entries = Bytes → ℤ → Option Bytes

-- An entity has letters in its name and nothing else, as `extract_elements` lets through, and a
-- number is an `int`.
abbrev pub IsKey : Bytes → ℤ → Type 0
IsKey entity id = All is_letter entity × (entity ≢ []) × InRange id

-- The same bodies at every key but this one.
abbrev pub SameElsewhere : Bytes → ℤ → Entries → Entries → Type 0
SameElsewhere entity id a b =
    (entity' : Bytes) (id' : ℤ)
    → IsKey entity' id'
    → ¬ ((entity' ≡ entity) × (id' ≡ id))
    → b entity' id' ≡ a entity' id'

abbrev pub SameEntries : Entries → Entries → Type 0
SameEntries a b = (entity : Bytes) (id : ℤ) → b entity id ≡ a entity id

-- What a map allows for each call and answer. An operation that fails changes nothing.
abbrev pub Allows : Entries → Call → Entries → Type 0
Allows a (create_call entity body id) b =
    ((a entity id ≡ none) × (b entity id ≡ some body) × SameElsewhere entity id a b)
    ⊎ ((id ≡ negsuc 0) × SameEntries a b)
Allows a (retrieve_call entity id answer) b =
    ((body : Bytes) → a entity id ≡ some body → (answer ≡ some body) ⊎ (answer ≡ none))
    × (a entity id ≡ none → answer ≡ none)
    × SameEntries a b
Allows a (update_call entity id body true) b =
    (b entity id ≡ some body) × SameElsewhere entity id a b
Allows a (update_call entity id body false) b = SameEntries a b
Allows a (del_call entity id true) b = (b entity id ≡ none) × SameElsewhere entity id a b
Allows a (del_call entity id false) b = (a entity id ≡ none) × SameEntries a b

-- A sequence of calls on a map.
abbrev pub AllowsAll : Entries → List Call → Entries → Type 0
AllowsAll a [] b = SameEntries a b
AllowsAll a (c ∷ cs) b = (m : Entries) × Allows a c m × AllowsAll m cs b

-- The keys of the calls; that of `create` is its answer.
abbrev pub HasKey : Call → Type 0
HasKey (create_call entity body id) = IsKey entity id
HasKey (retrieve_call entity id answer) = IsKey entity id
HasKey (update_call entity id body answer) = IsKey entity id
HasKey (del_call entity id answer) = IsKey entity id

abbrev pub AllHaveKeys : List Call → Type 0
AllHaveKeys [] = Unit
AllHaveKeys (c ∷ cs) = HasKey c × AllHaveKeys cs

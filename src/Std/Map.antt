-- ===== src/Std/Map.antt =====
-- `std::map<std::string, V>`: an association list in the order of the keys.
use raddish.Base.{
  Bool, true, false, ◌&&◌, ◌||◌, List, [], ◌∷◌, Bytes, Option, none, some, ◌≡◌, refl, sym, ◌⊎◌, inl,
  inr, Bool-cases, ltb, ◌==◌, equal, equal_iff, if◌then◌else◌, arith,
}

abbrev pub Map {ℓ} : Type ℓ → Type ℓ
Map V = List (Bytes × V)

-- `operator<` of two strings.
unfoldable pub less : Bytes → Bytes → Bool
less [] [] = false
less [] (y ∷ ys) = true
less (x ∷ xs) [] = false
less (x ∷ xs) (y ∷ ys) = ltb x y || (x == y && less xs ys)

module _ {ℓ} {V : Type ℓ} where
  -- `find`
  unfoldable pub lookup : Bytes → Map V → Option V
  unfolding equal
  lookup k [] = none
  lookup k ((j, v) ∷ m) = if equal j k then some v else lookup k m

  -- `m[k] = v`
  unfoldable pub insert : Bytes → V → Map V → Map V
  unfolding equal less
  insert k v [] = (k, v) ∷ []
  insert k v ((j, w) ∷ m) =
      let rest = (j, w) ∷ insert k v m in
      if equal j k then (k, v) ∷ m else if less k j then (k, v) ∷ (j, w) ∷ m else rest

  -- `m[k]`, read where the key may be missing.
  unfoldable pub get_or : Bytes → V → Map V → V
  unfolding lookup
  get_or k d m = elim (lookup k m) [ none ↦ d | some v ↦ v ]

  pub lookup-insert :
      (k j : Bytes) (v : V) (m : Map V)
      → lookup j (insert k v m) ≡ (if equal k j then some v else lookup j m)
  unfolding lookup insert
  lookup-insert k j v [] = refl
  lookup-insert k j v ((i, w) ∷ m) =
      ground (arith, equal_iff k j, equal_iff i k, equal_iff i j, lookup-insert k j v m)

  pub get_or-insert :
      (k j : Bytes) (d v : V) (m : Map V)
      → get_or j d (insert k v m) ≡ (if equal k j then v else get_or j d m)
  unfolding get_or
  get_or-insert k j d v m = rw (get_or, lookup-insert k j v m) (ground arith)

-- An entry of the map.
abbrev pub HasEntry : Bytes → Bytes → Map Bytes → Type 0
HasEntry l n [] = ⊥
HasEntry l n ((l', n') ∷ m) = ((l ≡ l') × (n ≡ n')) ⊎ HasEntry l n m

pub HasEntry-insert :
    (k l v n : Bytes) (m : Map Bytes)
    → HasEntry l n (insert k v m)
    → ((k ≡ l) × (v ≡ n)) ⊎ HasEntry l n m
unfolding insert
HasEntry-insert k l v n [] (inl (p, q)) = inl (sym p, sym q)
HasEntry-insert k l v n [] (inr x) = elim x [ ]
HasEntry-insert k l v n ((j, w) ∷ m) h = elim (Bool-cases (equal j k)) [
  | inl e ↦ elim (rw (e, insert) at h) [ inl (p, q) ↦ inl (sym p, sym q) | inr r ↦ inr (inr r) ]
  | inr e ↦ elim (Bool-cases (less k j)) [
    | inl f ↦ elim (rw (e, f, insert) at h) [ inl (p, q) ↦ inl (sym p, sym q) | inr r ↦ inr r ]
    | inr f ↦ elim (rw (e, f, insert) at h) [
      | inl r ↦ inr (inl r)
      | inr r ↦ later (HasEntry-insert k l v n m r)
    ]
  ]
]
  where
    later :
        ((k ≡ l) × (v ≡ n)) ⊎ HasEntry l n m
        → ((k ≡ l) × (v ≡ n)) ⊎ (((l ≡ j) × (n ≡ w)) ⊎ HasEntry l n m)
    later (inl r) = inl r
    later (inr r) = inr (inr r)

pub HasEntry-lookup : (l n : Bytes) (m : Map Bytes) → lookup l m ≡ some n → HasEntry l n m
unfolding lookup
HasEntry-lookup l n [] h = cc h
HasEntry-lookup l n ((j, w) ∷ m) h = elim (Bool-cases (equal j l)) [
  | inl e ↦ inl (sym ((equal_iff j l).0 e), sym (cc (rw (e, lookup) at h)))
  | inr e ↦ inr (HasEntry-lookup l n m (rw (e, lookup) at h))
]

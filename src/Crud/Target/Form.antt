-- ===== src/Crud/Target/Form.antt =====
-- The form of the paths that `extract_elements` of src/crud_request_handler.cc accepts.
use raddish.Base.{
  ℕ, Bool, true, false, [], ◌∷◌, ◌++◌, Bytes, Option, some, ◌==◌, ℤ, pos, ◌≡◌, ◌≢◌, ◌⊎◌, inl, inr,
  refl, ◌∙◌, sym, ap, subst, arith, All, Bool-cases,
}
use raddish.Std.Numbers.{Converted, value, thrown, is_digit, stoi}
use raddish.Std.Outcome.{Outcome, ok}
use raddish.Crud.Target.{
  is_letter, skip_slashes, letters, after_letters, all_digits, begins_with_slash, digits_group,
  id_group, entity_group, search_path, elements_of, extract_elements, with_id,
}

abbrev pub is_slash : ℕ → Bool
is_slash c = c == b'/'

-- Slashes, and what follows them.
pub record Slashes (s : Bytes) : Type 0 where
  pub front : Bytes
  pub slashes : All is_slash front
  pub joined : s ≡ front ++ skip_slashes s

Slashes-split : (s : Bytes) → Slashes s
unfolding skip_slashes
Slashes-split [] = record { front = []; slashes = tt; joined = refl }
Slashes-split (c ∷ cs) = elim (Bool-cases (is_slash c)) [
  | inl e ↦
      let r = Slashes-split cs in
      record {
        front = c ∷ r.front;
        slashes = (e, r.slashes);
        joined = ap (◌∷◌ c) r.joined ∙ rw (e, skip_slashes) refl;
      }
  | inr e ↦ record { front = []; slashes = tt; joined = rw (e, skip_slashes) refl }
]

letters-All : (s : Bytes) → All is_letter (letters s)
unfolding letters
letters-All [] = tt
letters-All (c ∷ cs) = elim (Bool-cases (is_letter c)) [
  | inl e ↦ rw e (e, letters-All cs)
  | inr e ↦ rw e tt
]

letters-after_letters : (s : Bytes) → s ≡ letters s ++ after_letters s
unfolding letters after_letters
letters-after_letters [] = refl
letters-after_letters (c ∷ cs) = elim (Bool-cases (is_letter c)) [
  | inl e ↦ rw e (ap (◌∷◌ c) (letters-after_letters cs))
  | inr e ↦ rw e refl
]

all_digits-All : (ds : Bytes) → all_digits ds ≡ true → All is_digit ds
unfolding all_digits
all_digits-All [] h = tt
all_digits-All (d ∷ ds) h = elim (Bool-cases (is_digit d)) [
  | inl e ↦ (e, all_digits-All ds (rw e at h))
  | inr e ↦ cc (rw e at h)
]

-- What stands behind the entity, for the number: nothing for 0, or digits behind a slash.
abbrev pub IsTail : Bytes → Bytes → ℤ → Type 0
IsTail middle tail id =
    ((tail ≡ []) × (id ≡ pos 0)) ⊎ (All is_digit tail × (middle ≢ []) × (stoi tail ≡ value id))

-- The parts of an accepted path.
pub record Form (path entity : Bytes) (id : ℤ) : Type 0 where
  pub front : Bytes
  pub middle : Bytes
  pub tail : Bytes
  pub joined : path ≡ front ++ (entity ++ (middle ++ tail))
  pub front_slashes : All is_slash front
  pub entity_letters : All is_letter entity
  pub entity_filled : entity ≢ []
  pub middle_slashes : All is_slash middle
  pub is_tail : IsTail middle tail id

parts :
    {w entity : Bytes} {n id : ℤ}
    → ◌≡◌ {A = Outcome (Option (Bytes × ℤ))} (ok (some (w, n))) (ok (some (entity, id)))
    → (w ≡ entity) × (n ≡ id)
parts {w} {entity} {n} {id} h =
    let p : ◌≡◌ {A = Bytes × ℤ} (w, n) (entity, id) = cc h in (ap (λ p. p.0) p, ap (λ p. p.1) p)

with_id-value :
    (w entity : Bytes) (c : Converted) (id : ℤ)
    → with_id w c ≡ ok (some (entity, id))
    → (w ≡ entity) × (c ≡ value id)
with_id-value w entity (value n) id h = let (p, q) = parts h in (p, ap value q)
with_id-value w entity (thrown e) id h = cc h

digits_group-tail :
    (w entity : Bytes) (slash : Bool) (t : Bytes) (id : ℤ)
    → elements_of (digits_group w slash t) ≡ ok (some (entity, id))
    → (w ≡ entity)
      × (((t ≡ []) × (id ≡ pos 0))
          ⊎ ((slash ≡ true) × (t ≢ []) × All is_digit t × (stoi t ≡ value id)))
unfolding digits_group
digits_group-tail w entity slash [] id h = let (p, q) = parts h in (p, inl (refl, sym q))
digits_group-tail w entity false (d ∷ ds) id h = cc h
digits_group-tail w entity true (d ∷ ds) id h = elim (Bool-cases (all_digits (d ∷ ds))) [
  | inl e ↦
      let (p, q) = with_id-value w entity (stoi (d ∷ ds)) id (rw e at h) in
      (p, inr (refl, λ n. cc, all_digits-All (d ∷ ds) e, q))
  | inr e ↦ cc (rw e at h)
]

-- Digits that stand where a slash is at the front have a slash before them.
slash-before :
    (r middle : Bytes)
    → r ≡ middle ++ skip_slashes r
    → begins_with_slash r ≡ true
    → All is_digit (skip_slashes r)
    → middle ≢ []
slash-before [] middle j b a m = cc b
slash-before (c ∷ cs) middle j b a m =
    let q : c ∷ cs ≡ skip_slashes (c ∷ cs) = j ∙ ap (λ (x : Bytes). x ++ skip_slashes (c ∷ cs)) m in
    not_digit (subst (All is_digit) (sym q) a).0
  where
    not_digit : is_digit c ≡ true → ⊥
    not_digit e = ground arith

id_group-IsTail :
    (w entity r : Bytes) (id : ℤ)
    → elements_of (id_group w r) ≡ ok (some (entity, id))
    → (w ≡ entity) × IsTail (Slashes-split r).front (skip_slashes r) id
unfolding id_group
id_group-IsTail w entity r id h =
    go (digits_group-tail w entity (begins_with_slash r) (skip_slashes r) id h)
  where
    go :
        (w ≡ entity)
          × (((skip_slashes r ≡ []) × (id ≡ pos 0))
              ⊎ ((begins_with_slash r ≡ true)
                  × (skip_slashes r ≢ [])
                  × All is_digit (skip_slashes r)
                  × (stoi (skip_slashes r) ≡ value id)))
        → (w ≡ entity) × IsTail (Slashes-split r).front (skip_slashes r) id
    go (p, inl t) = (p, inl t)
    go (p, inr (b, _, a, s)) =
        (p, inr (a, slash-before r (Slashes-split r).front (Slashes-split r).joined b a, s))

entity_group-IsTail :
    (w entity r : Bytes) (id : ℤ)
    → elements_of (entity_group w r) ≡ ok (some (entity, id))
    → (w ≡ entity) × (w ≢ []) × IsTail (Slashes-split r).front (skip_slashes r) id
entity_group-IsTail [] entity r id h = cc h
entity_group-IsTail (c ∷ cs) entity r id h =
    let (p, t) = id_group-IsTail (c ∷ cs) entity r id h in (p, λ n. cc, t)

-- A path that `extract_elements` takes apart consists of slashes, the entity, which is letters and
-- not empty, slashes, and either nothing, where the number is 0, or digits behind at least one
-- slash, where the number is what stoi reads.
pub extract_elements-Form :
    (path entity : Bytes) (id : ℤ)
    → extract_elements path ≡ ok (some (entity, id))
    → Form path entity id
unfolding extract_elements search_path
extract_elements-Form path entity id h =
    let rest : Bytes = skip_slashes path in
    let first = Slashes-split path in
    let second = Slashes-split (after_letters rest) in
    let (p, n, t) = entity_group-IsTail (letters rest) entity (after_letters rest) id h in
    record {
      front = first.front;
      middle = second.front;
      tail = skip_slashes (after_letters rest);
      joined =
          first.joined
          ∙ ap (λ (x : Bytes). first.front ++ x)
              (letters-after_letters rest
                ∙ ap (λ (x : Bytes). x ++ after_letters rest) p
                ∙ ap (λ (x : Bytes). entity ++ x) second.joined);
      front_slashes = first.slashes;
      entity_letters = subst (All is_letter) p (letters-All rest);
      entity_filled = λ e. n (p ∙ e);
      middle_slashes = second.slashes;
      is_tail = t;
    }

-- ===== src/Dispatch/Locations.antt =====
-- What the loop of src/request_dispatcher.cc over the locations finds.
use raddish.Base.{
  ℕ, suc, ◌≤◌, ◌<◌, true, false, [], ◌∷◌, Bytes, Option, none, some, length, ◌≡◌, refl, ◌∙◌, sym,
  subst, arith, ◌==◌, Bool-cases, inl, inr, ◌⊎◌, length-append,
}
use raddish.Std.Map.{Map, HasEntry}
use raddish.Config.Slashes.{last_char}
use raddish.Dispatch.{
  Handler, get_factory, starts_with, Search, with_slash, improves, found, search_step, search_loop,
}

-- A property of all entries.
abbrev pub Every : (Bytes → Type 0) → Map Bytes → Type 0
Every P [] = Unit
Every P ((l, n) ∷ m) = P l × Every P m

-- A location that is a prefix of the path, both with a slash at the end.
abbrev pub Matches : ℕ → Bytes → Bytes → Type 0
Matches stray path l = starts_with (with_slash stray path) (with_slash stray l) ≡ true

length-with_slash-le : (stray : ℕ) (s : Bytes) → length (with_slash stray s) ≤ suc (length s)
unfolding with_slash
length-with_slash-le stray s = elim (Bool-cases (last_char stray s == b'/')) [
  | inl e ↦ rw e (omega arith)
  | inr e ↦ rw e (omega (arith, length-append s (b'/' ∷ [])))
]

le-length-with_slash : (stray : ℕ) (s : Bytes) → length s ≤ length (with_slash stray s)
unfolding with_slash
le-length-with_slash stray s = elim (Bool-cases (last_char stray s == b'/')) [
  | inl e ↦ rw e (omega arith)
  | inr e ↦ rw e (omega (arith, length-append s (b'/' ∷ [])))
]

pub length-with_slash-pos :
    (stray : ℕ) (s : Bytes) → (stray == b'/') ≡ false → 0 < length (with_slash stray s)
unfolding with_slash last_char
length-with_slash-pos stray [] other = rw other (omega arith)
length-with_slash-pos stray (c ∷ cs) other = elim (Bool-cases (last_char stray (c ∷ cs) == b'/')) [
  | inl e ↦ rw e (omega arith)
  | inr e ↦ rw e (omega arith)
]

module _ (stray : ℕ) (path : Bytes) where
  -- The length that a later location has to exceed, with its slash.
  unfoldable pub bound_of : Option Handler → Bytes → ℕ
  bound_of none l = 0
  bound_of (some h) l = length (with_slash stray l)

  abbrev bound : Search → ℕ
  bound s = bound_of s.factory s.longest

  abbrev Empty : Search → Type 0
  Empty s = s.factory ≡ none → s.longest ≡ []

  improves-Matches :
      (longest l : Bytes)
      → improves stray path longest l ≡ true
      → Matches stray path l × (length longest < length (with_slash stray l))
  unfolding improves
  improves-Matches longest l h = ground arith

  not_improves-le :
      (longest l : Bytes)
      → improves stray path longest l ≡ false
      → Matches stray path l
      → length (with_slash stray l) ≤ length longest
  unfolding improves
  not_improves-le longest l h m = ground arith

  -- The location comes from the map, matches, and its handler is registered.
  abbrev Picked : Map Bytes → Search → Type 0
  Picked m s =
      (h : Handler) × (name : Bytes) × (s.factory ≡ some h)
      × HasEntry s.longest name m
      × Matches stray path s.longest
      × (get_factory name ≡ some h)

  abbrev Unregistered : Map Bytes → Type 0
  Unregistered m =
      (l : Bytes) × (name : Bytes) × HasEntry l name m
      × Matches stray path l
      × (get_factory name ≡ none)

  abbrev Below : ℕ → Bytes → Type 0
  Below n l = Matches stray path l → length (with_slash stray l) ≤ n

  abbrev pub LoopSpec : Map Bytes → Search → Option Search → Type 0
  LoopSpec m s none = Unregistered m
  LoopSpec m s (some s') =
      Empty s' × (bound s ≤ bound s') × Every (Below (bound s')) m × ((s' ≡ s) ⊎ Picked m s')

  -- The old match, with its slash, is no longer than one more than the old match.
  bound_of-le_suc : (f : Option Handler) (l : Bytes) → bound_of f l ≤ suc (length l)
  unfolding bound_of
  bound_of-le_suc none l = omega arith
  bound_of-le_suc (some h) l = length-with_slash-le stray l

  le-bound_of : (f : Option Handler) (l : Bytes) → (f ≡ none → l ≡ []) → length l ≤ bound_of f l
  unfolding bound_of
  le-bound_of none l e = rw (e refl) (omega arith)
  le-bound_of (some h) l e = le-length-with_slash stray l

  step-found :
      (l name : Bytes) (s : Search) (o : Option Handler)
      → Matches stray path l
      → length s.longest < length (with_slash stray l)
      → get_factory name ≡ o
      → LoopSpec ((l, name) ∷ []) s (found l o)
  unfolding bound_of
  step-found l name s none m lt g = (l, name, inl (refl, refl), m, g)
  step-found l name s (some h) m lt g = (
    λ x. cc,
    omega (arith, bound_of-le_suc s.factory s.longest),
    ((λ _. omega arith), tt),
    inr (h, name, refl, inl (refl, refl), m, g),
  )

  -- One round.
  search_step-LoopSpec :
      (l name : Bytes) (s : Search)
      → Empty s
      → LoopSpec ((l, name) ∷ []) s (search_step stray path l name s)
  unfolding search_step
  search_step-LoopSpec l name s e = elim (Bool-cases (improves stray path s.longest l)) [
    | inl b ↦
        let (m, lt) = improves-Matches s.longest l b in
        rw b (step-found l name s (get_factory name) m lt refl)
    | inr b ↦ rw b (
      e,
      omega arith,
      (
        (λ m. omega (arith, not_improves-le s.longest l b m, le-bound_of s.factory s.longest e)),
        tt,
      ),
      inl refl,
    )
  ]

  Every-Below : (m : Map Bytes) (a b : ℕ) → a ≤ b → Every (Below a) m → Every (Below b) m
  Every-Below [] a b h e = tt
  Every-Below ((l, n) ∷ m) a b h (p, e) = ((λ q. omega (arith, p q)), Every-Below m a b h e)

  Picked-tail :
      (l name : Bytes) (m : Map Bytes) (s : Search) → Picked m s → Picked ((l, name) ∷ m) s
  Picked-tail l name m s (h, n, f, entry, q, g) = (h, n, f, inr entry, q, g)

  Picked-head :
      (l name : Bytes) (m : Map Bytes) (s : Search)
      → Picked ((l, name) ∷ []) s
      → Picked ((l, name) ∷ m) s
  Picked-head l name m s (h, n, f, inl e, q, g) = (h, n, f, inl e, q, g)
  Picked-head l name m s (h, n, f, inr e, q, g) = absurd e

  join-which :
      (l name : Bytes) (m : Map Bytes) (s t u : Search)
      → (t ≡ s) ⊎ Picked ((l, name) ∷ []) t
      → (u ≡ t) ⊎ Picked m u
      → (u ≡ s) ⊎ Picked ((l, name) ∷ m) u
  join-which l name m s t u first (inr p) = inr (Picked-tail l name m u p)
  join-which l name m s t u (inl e) (inl e') = inl (e' ∙ e)
  join-which l name m s t u (inr p) (inl e') =
      inr (subst (Picked ((l, name) ∷ m)) (sym e') (Picked-head l name m t p))

  -- One round, then the others.
  join-LoopSpec :
      (l name : Bytes) (m : Map Bytes) (s t : Search) (o : Option Search)
      → LoopSpec ((l, name) ∷ []) s (some t)
      → LoopSpec m t o
      → LoopSpec ((l, name) ∷ m) s o
  join-LoopSpec l name m s t none first (l', n', entry, q, g) = (l', n', inr entry, q, g)
  join-LoopSpec l name m s t (some u) (e, le, (p, _), which) (e', le', every, which') =
      (e', omega arith, ((λ q. omega (arith, p q)), every), join-which l name m s t u which which')

  pub search_loop-LoopSpec :
      (m : Map Bytes) (s : Search) → Empty s → LoopSpec m s (search_loop stray path m s)
  unfolding search_loop
  search_loop-LoopSpec [] s e = (e, omega arith, tt, inl refl)
  search_loop-LoopSpec ((l, name) ∷ m) s e =
      go (search_step stray path l name s) refl (search_step-LoopSpec l name s e)
        (search_loop-LoopSpec m)
    where
      go :
          (o : Option Search)
          → search_step stray path l name s ≡ o
          → LoopSpec ((l, name) ∷ []) s o
          → ((t : Search) → Empty t → LoopSpec m t (search_loop stray path m t))
          → LoopSpec ((l, name) ∷ m) s (search_loop stray path ((l, name) ∷ m) s)
      go none q (l', n', inl x, y, g) ih = rw (q, search_loop) (l', n', inl x, y, g)
      go none q (l', n', inr x, y, g) ih = absurd x
      go (some t) q first ih =
          rw (q, search_loop) (join-LoopSpec l name m s t _ first (ih t first.0))

pub Every-weaken :
    (P Q : Bytes → Type 0) (m : Map Bytes) → ((l : Bytes) → P l → Q l) → Every P m → Every Q m
Every-weaken P Q [] f e = tt
Every-weaken P Q ((l, n) ∷ m) f (p, e) = (f l p, Every-weaken P Q m f e)

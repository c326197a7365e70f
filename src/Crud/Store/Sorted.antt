-- ===== src/Crud/Store/Sorted.antt =====
-- The sorted list of numbers of src/crud_store.cc.
use raddish.Base.{
  true, false, List, [], ◌∷◌, Bytes, ℤ, pos, negsuc, ◌≡◌, ◌⊎◌, inl, inr, refl, arith, Bool-cases,
}
use raddish.Std.Files.{Node, file}
use raddish.Crud.Store.{leb_ℤ, insert_sorted, sort}

abbrev pub HasId : ℤ → List ℤ → Type 0
HasId z [] = ⊥
HasId z (n ∷ ns) = (z ≡ n) ⊎ HasId z ns

abbrev pub HasFile : Bytes → Bytes → List (Bytes × Node) → Type 0
HasFile name content [] = ⊥
HasFile name content ((n, node) ∷ es) =
    ((name ≡ n) × (file content ≡ node)) ⊎ HasFile name content es

-- A list of ints in ascending order.
abbrev pub Head : ℤ → List ℤ → Type 0
Head n [] = Unit
Head n (m ∷ _) = leb_ℤ n m ≡ true

abbrev pub IsSorted : List ℤ → Type 0
IsSorted [] = Unit
IsSorted (n ∷ ns) = Head n ns × IsSorted ns

pub leb_ℤ_total : (a b : ℤ) → leb_ℤ a b ≡ false → leb_ℤ b a ≡ true
leb_ℤ_total (pos a) (pos b) h = ground arith
leb_ℤ_total (pos a) (negsuc b) h = refl
leb_ℤ_total (negsuc a) (pos b) h = cc
leb_ℤ_total (negsuc a) (negsuc b) h = ground arith

pub leb_ℤ_refl : (a : ℤ) → leb_ℤ a a ≡ true
leb_ℤ_refl (pos a) = ground arith
leb_ℤ_refl (negsuc a) = ground arith

pub leb_ℤ_trans : (a b c : ℤ) → leb_ℤ a b ≡ true → leb_ℤ b c ≡ true → leb_ℤ a c ≡ true
leb_ℤ_trans (pos a) (pos b) (pos c) h k = ground arith
leb_ℤ_trans (pos a) (pos b) (negsuc c) h k = cc
leb_ℤ_trans (pos a) (negsuc b) c h k = cc
leb_ℤ_trans (negsuc a) b (pos c) h k = refl
leb_ℤ_trans (negsuc a) (pos b) (negsuc c) h k = cc
leb_ℤ_trans (negsuc a) (negsuc b) (negsuc c) h k = ground arith

Head-insert_sorted :
    (k n : ℤ) (ms : List ℤ) → leb_ℤ k n ≡ true → Head k ms → Head k (insert_sorted n ms)
unfolding insert_sorted
Head-insert_sorted k n [] h g = h
Head-insert_sorted k n (m ∷ ms) h g = elim (Bool-cases (leb_ℤ n m)) [
  | inl e ↦ rw e h
  | inr e ↦ rw e g
]

insert_sorted-IsSorted : (n : ℤ) (ms : List ℤ) → IsSorted ms → IsSorted (insert_sorted n ms)
unfolding insert_sorted
insert_sorted-IsSorted n [] s = (tt, tt)
insert_sorted-IsSorted n (m ∷ ms) (h, s) = elim (Bool-cases (leb_ℤ n m)) [
  | inl e ↦ rw e (e, (h, s))
  | inr e ↦ rw e (Head-insert_sorted m n ms (leb_ℤ_total n m e) h, insert_sorted-IsSorted n ms s)
]

pub sort-IsSorted : (ns : List ℤ) → IsSorted (sort ns)
unfolding sort
sort-IsSorted [] = tt
sort-IsSorted (n ∷ ns) = insert_sorted-IsSorted n (sort ns) (sort-IsSorted ns)

HasId-insert_sorted : (z n : ℤ) (ms : List ℤ) → HasId z (n ∷ ms) → HasId z (insert_sorted n ms)
unfolding insert_sorted
HasId-insert_sorted z n [] h = h
HasId-insert_sorted z n (m ∷ ms) h = elim (Bool-cases (leb_ℤ n m)) [
  | inl e ↦ rw e h
  | inr e ↦ rw e (swapped h (λ x. HasId-insert_sorted z n ms x))
]
  where
    swapped :
        HasId z (n ∷ m ∷ ms)
        → (HasId z (n ∷ ms) → HasId z (insert_sorted n ms))
        → HasId z (m ∷ insert_sorted n ms)
    swapped (inl x) ih = inr (ih (inl x))
    swapped (inr (inl x)) ih = inl x
    swapped (inr (inr x)) ih = inr (ih (inr x))

pub HasId-sort : (z : ℤ) (ns : List ℤ) → HasId z ns → HasId z (sort ns)
unfolding sort
HasId-sort z [] h = h
HasId-sort z (n ∷ ns) (inl e) = HasId-insert_sorted z n (sort ns) (inl e)
HasId-sort z (n ∷ ns) (inr h) = HasId-insert_sorted z n (sort ns) (inr (HasId-sort z ns h))

-- ===== src/Crud/Store/Ids.antt =====
-- The numbers that `CRUDStore::list` of src/crud_store.cc finds, and the next one.
use raddish.Base.{
  zero, suc, true, false, List, [], ◌∷◌, Bytes, Option, none, some, equal, equal_iff, ℤ, pos,
  negsuc, ◌≡◌, ◌⊎◌, inl, inr, refl, ◌∙◌, sym, ap, subst, arith, Bool-cases,
}
use raddish.Std.Map
use raddish.Std.{invalid_argument, out_of_range, runtime_error, Converted, value, thrown}
use raddish.Std.Files.{Node, file, directory, Nodes, child_name, entries, with_child}
use raddish.Std.Numbers.{stoi}
use raddish.Std.Numbers.Decimal.{InRange, stoi-InRange}
use raddish.Std.Outcome.{Outcome, ok, throw, undefined}
use raddish.Crud.Store.{
  leb_ℤ, insert_sorted, sort, add_id, collect_ids, max_element, add_one, next_id,
}
use raddish.Crud.Store.Sorted.{HasId, HasFile, leb_ℤ_total, leb_ℤ_refl, leb_ℤ_trans}

-- Every file that is named by an `int` is collected, and nothing but an `int` is.
HasId-add_id :
    (z : ℤ) (c : Converted) (rest : Outcome (List ℤ)) {ids : List ℤ}
    → add_id c rest ≡ ok ids
    → (c ≡ value z) ⊎ ((ns : List ℤ) → rest ≡ ok ns → HasId z ns)
    → HasId z ids
HasId-add_id z (value n) (ok ns) {ids} h (inl e) =
    let q : n ∷ ns ≡ ids = cc h in subst (HasId z) q (inl (cc e))
HasId-add_id z (value n) (ok ns) {ids} h (inr f) =
    let q : n ∷ ns ≡ ids = cc h in subst (HasId z) q (inr (f ns refl))
HasId-add_id z (value n) (throw e) h f = cc h
HasId-add_id z (value n) undefined h f = cc h
HasId-add_id z (thrown invalid_argument) rest h (inl e) = cc e
HasId-add_id z (thrown invalid_argument) rest h (inr f) = f _ h
HasId-add_id z (thrown out_of_range) rest h f = cc h
HasId-add_id z (thrown (runtime_error e)) rest h f = cc h

pub collect_ids-HasFile :
    (z : ℤ) (name content : Bytes) (es : List (Bytes × Node)) {ids : List ℤ}
    → stoi name ≡ value z
    → HasFile name content es
    → collect_ids es ≡ ok ids
    → HasId z ids
unfolding collect_ids
collect_ids-HasFile z name content [] e f h = absurd f
collect_ids-HasFile z name content ((n, file c) ∷ es) e (inl (p, _)) h =
    HasId-add_id z (stoi n) (collect_ids es) h (inl (ap stoi (sym p) ∙ e))
collect_ids-HasFile z name content ((n, file c) ∷ es) e (inr f) h =
    HasId-add_id z (stoi n) (collect_ids es) h
      (inr (λ ns k. collect_ids-HasFile z name content es e f k))
collect_ids-HasFile z name content ((n, directory) ∷ es) e (inl (_, p)) h = cc p
collect_ids-HasFile z name content ((n, directory) ∷ es) e (inr f) h =
    collect_ids-HasFile z name content es e f h

abbrev pub AllInRange : List ℤ → Type 0
AllInRange [] = Unit
AllInRange (n ∷ ns) = InRange n × AllInRange ns

add_id-AllInRange :
    (name : Bytes) (c : Converted) (rest : Outcome (List ℤ)) {ids : List ℤ}
    → stoi name ≡ c
    → add_id c rest ≡ ok ids
    → ((ns : List ℤ) → rest ≡ ok ns → AllInRange ns)
    → AllInRange ids
add_id-AllInRange name (value n) (ok ns) e h f =
    let q : n ∷ ns ≡ _ = cc h in subst AllInRange q (stoi-InRange name e, f ns refl)
add_id-AllInRange name (value n) (throw x) e h f = cc h
add_id-AllInRange name (value n) undefined e h f = cc h
add_id-AllInRange name (thrown invalid_argument) rest e h f = f _ h
add_id-AllInRange name (thrown out_of_range) rest e h f = cc h
add_id-AllInRange name (thrown (runtime_error x)) rest e h f = cc h

pub collect_ids-AllInRange :
    (es : List (Bytes × Node)) {ids : List ℤ} → collect_ids es ≡ ok ids → AllInRange ids
unfolding collect_ids
collect_ids-AllInRange [] h = let q : [] ≡ _ = cc h in subst AllInRange q tt
collect_ids-AllInRange ((n, file c) ∷ es) h =
    add_id-AllInRange n (stoi n) (collect_ids es) refl h (λ ns k. collect_ids-AllInRange es k)
collect_ids-AllInRange ((n, directory) ∷ es) h = collect_ids-AllInRange es h

insert_sorted-AllInRange :
    (n : ℤ) (ms : List ℤ) → InRange n → AllInRange ms → AllInRange (insert_sorted n ms)
unfolding insert_sorted
insert_sorted-AllInRange n [] h a = (h, tt)
insert_sorted-AllInRange n (m ∷ ms) h (k, a) = elim (Bool-cases (leb_ℤ n m)) [
  | inl e ↦ rw e (h, (k, a))
  | inr e ↦ rw e (k, insert_sorted-AllInRange n ms h a)
]

pub sort-AllInRange : (ns : List ℤ) → AllInRange ns → AllInRange (sort ns)
unfolding sort
sort-AllInRange [] a = tt
sort-AllInRange (n ∷ ns) (h, a) = insert_sorted-AllInRange n (sort ns) h (sort-AllInRange ns a)

-- The greatest number.
max_element-ge :
    (n : ℤ) (ms : List ℤ) (z : ℤ) → HasId z (n ∷ ms) → leb_ℤ z (max_element n ms) ≡ true
unfolding max_element
max_element-ge n [] z (inl e) = rw e (leb_ℤ_refl n)
max_element-ge n [] z (inr h) = absurd h
max_element-ge n (m ∷ ms) z h = elim (Bool-cases (leb_ℤ n m)) [
  | inl e ↦ rw e (upper e h (max_element-ge m ms))
  | inr e ↦ rw e (lower e h (max_element-ge n ms))
]
  where
    upper :
        leb_ℤ n m ≡ true
        → HasId z (n ∷ m ∷ ms)
        → ((y : ℤ) → HasId y (m ∷ ms) → leb_ℤ y (max_element m ms) ≡ true)
        → leb_ℤ z (max_element m ms) ≡ true
    upper e (inl x) ih = rw x (leb_ℤ_trans n m (max_element m ms) e (ih m (inl refl)))
    upper e (inr x) ih = ih z x

    lower :
        leb_ℤ n m ≡ false
        → HasId z (n ∷ m ∷ ms)
        → ((y : ℤ) → HasId y (n ∷ ms) → leb_ℤ y (max_element n ms) ≡ true)
        → leb_ℤ z (max_element n ms) ≡ true
    lower e (inl x) ih = ih z (inl x)
    lower e (inr (inl x)) ih =
        rw x (leb_ℤ_trans m n (max_element n ms) (leb_ℤ_total n m e) (ih n (inl refl)))
    lower e (inr (inr x)) ih = ih z (inr x)

max_element-InRange : (n : ℤ) (ms : List ℤ) → AllInRange (n ∷ ms) → InRange (max_element n ms)
unfolding max_element
max_element-InRange n [] (h, a) = h
max_element-InRange n (m ∷ ms) (h, (k, a)) = elim (Bool-cases (leb_ℤ n m)) [
  | inl e ↦ rw e (max_element-InRange m ms (k, a))
  | inr e ↦ rw e (max_element-InRange n ms (h, a))
]

add_one-gt : (m : ℤ) {z : ℤ} → add_one m ≡ ok z → leb_ℤ z m ≡ false
add_one-gt (pos n) h = ground arith
add_one-gt (negsuc zero) h = ground arith
add_one-gt (negsuc (suc n)) h = ground arith

add_one-InRange : (m : ℤ) {z : ℤ} → InRange m → add_one m ≡ ok z → InRange z
add_one-InRange (pos n) r h = ground arith
add_one-InRange (negsuc zero) r h = ground arith
add_one-InRange (negsuc (suc n)) r h = ground arith

-- The next number is above every number that is listed.
pub next_id-new : (ids : List ℤ) {z : ℤ} → next_id ids ≡ ok z → ¬ HasId z ids
unfolding next_id
next_id-new [] h f = f
next_id-new (n ∷ ns) {z} h f = cc (max_element-ge n ns z f, add_one-gt (max_element n ns) h)

pub next_id-InRange : (ids : List ℤ) {z : ℤ} → AllInRange ids → next_id ids ≡ ok z → InRange z
unfolding next_id
next_id-InRange [] a h = ground arith
next_id-InRange (n ∷ ns) a h = add_one-InRange (max_element n ns) (max_element-InRange n ns a) h

HasFile-with_child :
    (name content : Bytes) (o : Option Bytes) (node : Node) (es : List (Bytes × Node))
    → HasFile name content es
    → HasFile name content (with_child o node es)
HasFile-with_child name content none node es h = h
HasFile-with_child name content (some n) node es h = inr h

-- A file that lies in a directory is among its entries.
pub entries-HasFile :
    (fs : Nodes) (dir path name content : Bytes)
    → child_name dir path ≡ some name
    → Map.lookup path fs ≡ some (file content)
    → HasFile name content (entries fs dir)
unfolding Map.lookup entries
entries-HasFile [] dir path name content c h = cc h
entries-HasFile ((p, node) ∷ fs) dir path name content c h = elim (Bool-cases (equal p path)) [
  | inl e ↦ let q : p ≡ path = (equal_iff p path).0 e in rw (q, c) (inl (refl, cc (rw e at h)))
  | inr e ↦
      HasFile-with_child name content (child_name dir p) node (entries fs dir)
        (entries-HasFile fs dir path name content c (rw e at h))
]

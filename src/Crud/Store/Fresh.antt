-- ===== src/Crud/Store/Fresh.antt =====
-- The files before and after `CRUDStore::create` of src/crud_store.cc.
use raddish.Base.{
  true, false, List, Bytes, Option, none, some, equal, equal_iff, equal_refl, if◌then◌else◌, ℤ,
  negsuc, ◌≡◌, ◌≢◌, ◌⊎◌, inl, inr, ◌∙◌, sym, ap, subst, arith, Bool-cases, Option-cases,
}
use raddish.Std.Map
use raddish.Std.Files.{
  Node, file, directory, Nodes, System, exists, is_directory, opens_for_write, read_file,
  child_name-join, entries, file_content, read_file-insert, exists-insert, read_file_of_not_exists,
}
use raddish.Std.Numbers.{to_string}
use raddish.Std.Numbers.Decimal.{InRange, stoi-to_string-InRange, has_slash-to_string}
use raddish.Std.Outcome.{ok, >>=-eq-ok}
use raddish.Crud.Store.{
  entity_path, file_path, list, collect_ids, sort, next_id, ensure_directory, create, write_new,
}
use raddish.Crud.Store.Ids.{
  AllInRange, collect_ids-HasFile, collect_ids-AllInRange, sort-AllInRange, next_id-new,
  next_id-InRange, entries-HasFile,
}
use raddish.Crud.Store.Sorted.{HasId, HasFile, HasId-sort}

-- What `ensure_directory` leaves: every regular file as it was, and the path in place.
pub ensure_directory_lem :
    (os : System) (fs : Nodes) (path : Bytes) {fs' : Nodes}
    → ensure_directory os fs path ≡ ok fs'
    → ((j : Bytes) → read_file fs' j ≡ read_file fs j) × (exists fs' path ≡ true)
unfolding ensure_directory
ensure_directory_lem os fs path {fs'} h = elim (Bool-cases (exists fs path)) [
  | inl e ↦
      let q : fs ≡ fs' = cc (rw e at h) in
      (
        (λ j. ap (λ (m : Nodes). read_file m j) (sym q)),
        ap (λ (m : Nodes). exists m path) (sym q) ∙ e,
      )
  | inr e ↦ elim (Bool-cases (os.can_create fs path)) [
    | inl c ↦
        let q : Map.insert path directory fs ≡ fs' = cc (rw c at (rw e at h)) in
        (
          λ j.
              ap (λ (m : Nodes). read_file m j) (sym q)
              ∙ read_file-insert path j directory fs
              ∙ same j (Bool-cases (equal path j)) e,
          ap (λ (m : Nodes). exists m path) (sym q)
              ∙ exists-insert path path directory fs
              ∙ rw (equal_refl path),
        )
    | inr c ↦ cc (rw c at (rw e at h))
  ]
]
  where
    same :
        (j : Bytes)
        → (equal path j ≡ true) ⊎ (equal path j ≡ false)
        → exists fs path ≡ false
        → (if equal path j then none else read_file fs j) ≡ read_file fs j
    same j (inl x) e =
        let p : path ≡ j = (equal_iff path j).0 x in
        let missing : exists fs j ≡ false = ap (exists fs) (sym p) ∙ e in
        rw x (sym (read_file_of_not_exists fs j missing))
    same j (inr x) e = rw x

-- A list of a directory that is there comes from its entries.
pub list-entries :
    (os : System) (fs : Nodes) (data_path entity_type : Bytes) {ids : List ℤ}
    → exists fs (entity_path data_path entity_type) ≡ true
    → list os fs data_path entity_type ≡ ok ids
    → (ns : List ℤ) × (collect_ids (entries fs (entity_path data_path entity_type)) ≡ ok ns)
      × (sort ns ≡ ids)
unfolding list
list-entries os fs data_path entity_type e h =
    elim (Bool-cases (is_directory fs (entity_path data_path entity_type))) [
      | inl d ↦ elim (Bool-cases (os.can_read fs (entity_path data_path entity_type))) [
        | inl r ↦
            let (ns, a, b) =
              >>=-eq-ok (collect_ids (entries fs (entity_path data_path entity_type)))
                (λ ns. ok (sort ns)) (rw r at (rw d at (rw e at h))) in
            (ns, a, cc b)
        | inr r ↦ cc (rw r at (rw d at (rw e at h)))
      ]
      | inr d ↦ cc (rw d at (rw e at h))
    ]

-- The number of a file of the directory is listed.
list-HasId :
    (os : System) (fs : Nodes) (data_path entity_type content : Bytes) (z : ℤ) {ids : List ℤ}
    → InRange z
    → exists fs (entity_path data_path entity_type) ≡ true
    → list os fs data_path entity_type ≡ ok ids
    → read_file fs (file_path data_path entity_type z) ≡ some content
    → HasId z ids
unfolding file_path read_file
list-HasId os fs data_path entity_type content z r e h c =
    let dir : Bytes = entity_path data_path entity_type in
    let (ns, a, b) = list-entries os fs data_path entity_type e h in
    let found : HasFile (to_string z) content (entries fs dir) =
      entries-HasFile fs dir _ (to_string z) content
        (child_name-join dir (to_string z) (has_slash-to_string z)) (content_of _ c) in
    subst (HasId z) b (
      HasId-sort z ns (
        collect_ids-HasFile z (to_string z) content (entries fs dir) (stoi-to_string-InRange z r)
          found a))
  where
    content_of : (o : Option Node) → file_content o ≡ some content → o ≡ some (file content)
    content_of none q = cc q
    content_of (some (file x)) q = cc q
    content_of (some directory) q = cc q

list-AllInRange :
    (os : System) (fs : Nodes) (data_path entity_type : Bytes) {ids : List ℤ}
    → exists fs (entity_path data_path entity_type) ≡ true
    → list os fs data_path entity_type ≡ ok ids
    → AllInRange ids
list-AllInRange os fs data_path entity_type e h =
    let (ns, a, b) = list-entries os fs data_path entity_type e h in
    subst AllInRange b (sort-AllInRange ns (collect_ids-AllInRange _ a))

-- The number that is taken names no file.
next_id-fresh :
    (os : System) (fs : Nodes) (data_path entity_type : Bytes) (ids : List ℤ) (z : ℤ)
    → exists fs (entity_path data_path entity_type) ≡ true
    → list os fs data_path entity_type ≡ ok ids
    → next_id ids ≡ ok z
    → read_file fs (file_path data_path entity_type z) ≡ none
next_id-fresh os fs data_path entity_type ids z e h n =
    elim (Option-cases (read_file fs (file_path data_path entity_type z))) [
      | inl q ↦ q
      | inr (c, q) ↦ absurd (
          next_id-new ids n (
            list-HasId os fs data_path entity_type c z
              (next_id-InRange ids (list-AllInRange os fs data_path entity_type e h) n) e h q))
    ]

-- What `create` leaves: a new file with the body under a number that named none, and every other
-- file as it was; or -1, and every file as it was.
pub record Created (fs fs' : Nodes) (data_path entity_type body : Bytes) (id : ℤ) : Type 0 where
  pub fresh : read_file fs (file_path data_path entity_type id) ≡ none
  pub stored : read_file fs' (file_path data_path entity_type id) ≡ some body
  pub kept : (j : Bytes) → j ≢ file_path data_path entity_type id → read_file fs' j ≡ read_file fs j

pub record NotCreated (fs fs' : Nodes) (id : ℤ) : Type 0 where
  pub sentinel : id ≡ negsuc 0
  pub kept : (j : Bytes) → read_file fs' j ≡ read_file fs j

write_new-Created :
    (os : System) (fs fs1 fs' : Nodes) (data_path entity_type body : Bytes) (new_id id : ℤ)
    → ((j : Bytes) → read_file fs1 j ≡ read_file fs j)
    → read_file fs1 (file_path data_path entity_type new_id) ≡ none
    → write_new os fs1 (file_path data_path entity_type new_id) body new_id ≡ (fs', id)
    → Created fs fs' data_path entity_type body id ⊎ NotCreated fs fs' id
unfolding write_new
write_new-Created os fs fs1 fs' data_path entity_type body new_id id same fresh h =
    let path = file_path data_path entity_type new_id in
    elim (Bool-cases (opens_for_write os fs1 path)) [
      | inl o ↦
          let q : fs' ≡ Map.insert path (file body) fs1 = sym (ap (λ p. p.0) (rw o at h)) in
          let k : id ≡ new_id = sym (ap (λ p. p.1) (rw o at h)) in
          inl (
            rw (q, k)
              (record {
                fresh = sym (same path) ∙ fresh;
                stored = read_file-insert path path (file body) fs1 ∙ rw (equal_refl path);
                kept = λ j n. read_file-insert path j (file body) fs1 ∙ other j n ∙ same j;
              }))
      | inr o ↦
          let q : fs' ≡ fs1 = sym (ap (λ p. p.0) (rw o at h)) in
          inr (record {
            sentinel = sym (ap (λ p. p.1) (rw o at h));
            kept = λ j. ap (λ (m : Nodes). read_file m j) q ∙ same j;
          })
    ]
  where
    other :
        (j : Bytes)
        → j ≢ file_path data_path entity_type new_id
        → (if equal (file_path data_path entity_type new_id) j
            then file_content (some (file body))
            else read_file fs1 j)
          ≡ read_file fs1 j
    other j n = ground (arith, equal_iff (file_path data_path entity_type new_id) j)

-- If `create` returns, then either the file of the number that it returns did not exist before
-- and holds the body now, with every other file as it was, or the number is -1 and every file is
-- as it was.
pub create-Created :
    (os : System) (fs fs' : Nodes) (data_path entity_type body : Bytes) (id : ℤ)
    → create os fs data_path entity_type body ≡ ok (fs', id)
    → Created fs fs' data_path entity_type body id ⊎ NotCreated fs fs' id
unfolding create
create-Created os fs fs' data_path entity_type body id h =
    let (fs1, made, h1) =
      >>=-eq-ok (ensure_directory os fs (entity_path data_path entity_type)) _ h in
    let (ids, listed, h2) = >>=-eq-ok (list os fs1 data_path entity_type) _ h1 in
    let (new_id, chosen, h3) = >>=-eq-ok (next_id ids) _ h2 in
    let (same, there) = ensure_directory_lem os fs (entity_path data_path entity_type) made in
    let fresh = next_id-fresh os fs1 data_path entity_type ids new_id there listed chosen in
    write_new-Created os fs fs1 fs' data_path entity_type body new_id id same fresh (cc h3)

-- The number that `create` answers is an `int`.
pub create-InRange :
    (os : System) (fs fs' : Nodes) (data_path entity_type body : Bytes) (id : ℤ)
    → create os fs data_path entity_type body ≡ ok (fs', id)
    → InRange id
unfolding create write_new
create-InRange os fs fs' data_path entity_type body id h =
    let (fs1, made, h1) =
      >>=-eq-ok (ensure_directory os fs (entity_path data_path entity_type)) _ h in
    let (ids, listed, h2) = >>=-eq-ok (list os fs1 data_path entity_type) _ h1 in
    let (new_id, chosen, h3) = >>=-eq-ok (next_id ids) _ h2 in
    let (_, there) = ensure_directory_lem os fs (entity_path data_path entity_type) made in
    let range =
      next_id-InRange ids (list-AllInRange os fs1 data_path entity_type there listed) chosen in
    let path = file_path data_path entity_type new_id in
    let p : write_new os fs1 path body new_id ≡ (fs', id) = cc h3 in
    elim (Bool-cases (opens_for_write os fs1 path)) [
      | inl o ↦ subst InRange (ap (λ p. p.1) (rw o at p)) range
      | inr o ↦ subst InRange (ap (λ p. p.1) (rw o at p)) (omega arith)
    ]

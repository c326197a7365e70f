-- ===== src/Crud/Store/Changes.antt =====
-- What `update`, `del`, `retrieve` and `list` do to the files of the store.
use raddish.Base.{
  Bool, true, false, List, Bytes, Option, none, some, equal_iff, equal_refl, ℤ, ◌≡◌, ◌≢◌, inl, inr,
  refl, ◌∙◌, sym, ap, subst, arith, Bool-cases, [],
}
use raddish.Std.Map
use raddish.Std.Files.{
  Node, file, Nodes, System, exists, opens_for_write, read_file, file_content, read_file-insert,
  is_some_node, erase, lookup-erase,
}
use raddish.Std.Outcome.{ok, >>=-eq-ok}
use raddish.Crud.Store.{
  entity_path, file_path, list, ensure_directory, retrieve, update, del, write_over, read_node,
  sort,
}
use raddish.Crud.Store.Sorted.{IsSorted, sort-IsSorted}
use raddish.Crud.Store.Fresh.{ensure_directory_lem, list-entries}

-- What `update` leaves, for its answer.
pub record Updated (fs fs' : Nodes) (path body : Bytes) (opened : Bool) : Type 0 where
  pub stored : opened ≡ true → read_file fs' path ≡ some body
  pub refused : opened ≡ false → read_file fs' path ≡ read_file fs path
  pub kept : (j : Bytes) → j ≢ path → read_file fs' j ≡ read_file fs j

read_file-insert-other :
    (path j body : Bytes) (fs : Nodes)
    → j ≢ path
    → read_file (Map.insert path (file body) fs) j ≡ read_file fs j
read_file-insert-other path j body fs n =
    read_file-insert path j (file body) fs ∙ ground (arith, equal_iff path j)

write_over-Updated :
    (os : System) (fs fs1 fs' : Nodes) (path body : Bytes) (opened : Bool)
    → ((j : Bytes) → read_file fs1 j ≡ read_file fs j)
    → write_over os fs1 path body ≡ (fs', opened)
    → Updated fs fs' path body opened
unfolding write_over
write_over-Updated os fs fs1 fs' path body opened same h =
    elim (Bool-cases (opens_for_write os fs1 path)) [
      | inl o ↦
          let q : fs' ≡ Map.insert path (file body) fs1 = sym (ap (λ p. p.0) (rw o at h)) in
          let k : opened ≡ true = sym (ap (λ p. p.1) (rw o at h)) in
          rw (q, k)
            (record {
              stored = λ _. read_file-insert path path (file body) fs1 ∙ rw (equal_refl path);
              refused = λ e. cc;
              kept = λ j n. read_file-insert-other path j body fs1 n ∙ same j;
            })
      | inr o ↦
          let q : fs' ≡ fs1 = sym (ap (λ p. p.0) (rw o at h)) in
          let k : opened ≡ false = sym (ap (λ p. p.1) (rw o at h)) in
          rw (q, k) (record { stored = λ e. cc; refused = λ _. same path; kept = λ j _. same j })
    ]

-- If `update` returns, then with the answer true the file of the number holds the body, with the
-- answer false it is as it was; every other file is as it was.
pub update-Updated :
    (os : System) (fs fs' : Nodes) (data_path entity_type : Bytes) (id : ℤ) (body : Bytes)
    (opened : Bool)
    → update os fs data_path entity_type id body ≡ ok (fs', opened)
    → Updated fs fs' (file_path data_path entity_type id) body opened
unfolding update
update-Updated os fs fs' data_path entity_type id body opened h =
    let path = file_path data_path entity_type id in
    elim (Bool-cases (exists fs path)) [
      | inl e ↦ write_over-Updated os fs fs fs' path body opened (λ j. refl) (cc (rw e at h))
      | inr e ↦ elim (Bool-cases (os.fails_status fs path)) [
        | inl f ↦ cc (rw f at (rw e at h))
        | inr f ↦
            let (fs1, made, h1) =
              >>=-eq-ok (ensure_directory os fs (entity_path data_path entity_type)) _
                (rw f at (rw e at h)) in
            let (same, _) = ensure_directory_lem os fs (entity_path data_path entity_type) made in
            write_over-Updated os fs fs1 fs' path body opened same (cc h1)
      ]
    ]

-- What `retrieve` reads of a regular file, if the stream opens.
pub retrieve-read_file :
    (os : System) (fs : Nodes) (data_path entity_type : Bytes) (id : ℤ) (body : Bytes)
    → os.can_read fs (file_path data_path entity_type id) ≡ true
    → read_file fs (file_path data_path entity_type id) ≡ some body
    → retrieve os fs data_path entity_type id ≡ ok (some body)
unfolding retrieve read_file
retrieve-read_file os fs data_path entity_type id body r h = rw r (node_of _ _ h)
  where
    node_of :
        (fails : Bool) (o : Option Node)
        → file_content o ≡ some body
        → read_node true fails o ≡ ok (some body)
    node_of fails none q = cc q
    node_of fails (some (file x)) q = ap ok q
    node_of fails (some _) q = cc q

-- After an `update` that answers true, `retrieve` of that number returns the body, if the file
-- can be read.
pub retrieve-update :
    (os : System) (fs fs' : Nodes) (data_path entity_type : Bytes) (id : ℤ) (body : Bytes)
    → update os fs data_path entity_type id body ≡ ok (fs', true)
    → os.can_read fs' (file_path data_path entity_type id) ≡ true
    → retrieve os fs' data_path entity_type id ≡ ok (some body)
retrieve-update os fs fs' data_path entity_type id body h r =
    retrieve-read_file os fs' data_path entity_type id body r
      ((update-Updated os fs fs' data_path entity_type id body true h).stored refl)

-- What `del` leaves, for its answer: nothing at the path, and every other node as it was.
pub record Deleted (fs fs' : Nodes) (path : Bytes) (answer : Bool) : Type 0 where
  pub existed : answer ≡ exists fs path
  pub gone : exists fs' path ≡ false
  pub kept : (j : Bytes) → j ≢ path → Map.lookup j fs' ≡ Map.lookup j fs

exists-erase : (path : Bytes) (fs : Nodes) → exists (erase path fs) path ≡ false
unfolding exists
exists-erase path fs = ap is_some_node (lookup-erase path path fs) ∙ ground (arith, equal_refl path)

-- If `del` returns, then its answer is whether the path of the number existed, no node is at that
-- path any more, and every other node is as it was.
pub del-Deleted :
    (os : System) (fs fs' : Nodes) (data_path entity_type : Bytes) (id : ℤ) (answer : Bool)
    → del os fs data_path entity_type id ≡ ok (fs', answer)
    → Deleted fs fs' (file_path data_path entity_type id) answer
unfolding del
del-Deleted os fs fs' data_path entity_type id answer h =
    let path = file_path data_path entity_type id in
    elim (Bool-cases (exists fs path)) [
      | inl e ↦ elim (Bool-cases (os.can_remove fs path)) [
        | inl c ↦
            let p : ◌≡◌ {A = Nodes × Bool} (erase path fs, true) (fs', answer) =
              cc (rw c at (rw e at h)) in
            rw (sym (ap (λ p. p.0) p), sym (ap (λ p. p.1) p))
              (record {
                existed = sym e;
                gone = exists-erase path fs;
                kept = λ j n. lookup-erase path j fs ∙ ground (arith, equal_iff path j);
              })
        | inr c ↦ cc (rw c at (rw e at h))
      ]
      | inr e ↦ elim (Bool-cases (os.fails_status fs path)) [
        | inl f ↦ cc (rw f at (rw e at h))
        | inr f ↦
            let p : ◌≡◌ {A = Nodes × Bool} (fs, false) (fs', answer) = cc (rw f at (rw e at h)) in
            rw (sym (ap (λ p. p.0) p), sym (ap (λ p. p.1) p))
              (record { existed = sym e; gone = e; kept = λ j n. refl })
      ]
    ]

-- An answer false of `del` leaves all nodes.
pub del-Kept :
    (os : System) (fs fs' : Nodes) (data_path entity_type : Bytes) (id : ℤ)
    → del os fs data_path entity_type id ≡ ok (fs', false)
    → (j : Bytes) → read_file fs' j ≡ read_file fs j
unfolding del
del-Kept os fs fs' data_path entity_type id h j =
    let path = file_path data_path entity_type id in
    elim (Bool-cases (exists fs path)) [
      | inl e ↦ elim (Bool-cases (os.can_remove fs path)) [
        | inl c ↦
            let p : ◌≡◌ {A = Nodes × Bool} (erase path fs, true) (fs', false) =
              cc (rw c at (rw e at h)) in
            cc (ap (λ p. p.1) p)
        | inr c ↦ cc (rw c at (rw e at h))
      ]
      | inr e ↦ elim (Bool-cases (os.fails_status fs path)) [
        | inl f ↦ cc (rw f at (rw e at h))
        | inr f ↦
            let p : ◌≡◌ {A = Nodes × Bool} (fs, false) (fs', false) = cc (rw f at (rw e at h)) in
            ap (λ p. read_file p.0 j) (sym p)
      ]
    ]

-- The numbers that `list` returns are in ascending order.
pub list-IsSorted :
    (os : System) (fs : Nodes) (data_path entity_type : Bytes) (ids : List ℤ)
    → list os fs data_path entity_type ≡ ok ids
    → IsSorted ids
unfolding list sort
list-IsSorted os fs data_path entity_type ids h =
    elim (Bool-cases (exists fs (entity_path data_path entity_type))) [
      | inl e ↦
          let (ns, _, b) = list-entries os fs data_path entity_type e h in
          subst IsSorted b (sort-IsSorted ns)
      | inr e ↦ elim (Bool-cases (os.fails_status fs (entity_path data_path entity_type))) [
        | inl f ↦ cc (rw f at (rw e at h))
        | inr f ↦ let q : [] ≡ ids = cc (rw f at (rw e at h)) in subst IsSorted q (sort-IsSorted [])
      ]
    ]

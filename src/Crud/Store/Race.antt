-- ===== src/Crud/Store/Race.antt =====
-- Two calls of `CRUDStore::create` of src/crud_store.cc on the two threads of the server.
use raddish.Base.{true, List, Bytes, some, ℤ, ◌≡◌, refl, sym, ◌∙◌, ap, equal_refl}
use raddish.Std.Files.{file, Nodes, System, exists, opens_for_write, read_file, read_file-insert}
use raddish.Std.Outcome.{Outcome, ok, ◌>>=◌, >>=-eq-ok}
use raddish.Crud.Store.{entity_path, file_path, list, next_id, ensure_directory, create, write_new}
use raddish.Crud.Store.Fresh.{ensure_directory_lem}

-- `create` up to the point where it has chosen the number: the nodes and the number.
unfoldable pub choose : System → Nodes → Bytes → Bytes → Outcome (Nodes × ℤ)
choose os fs data_path entity_type = do
  fs' ← ensure_directory os fs (entity_path data_path entity_type)
  ids ← list os fs' data_path entity_type
  new_id ← next_id ids
  ok (fs', new_id)

-- Its rest, on the nodes that it then finds.
unfoldable pub write : System → Nodes → Bytes → Bytes → ℤ → Bytes → Nodes × ℤ
unfolding write_new
write os fs data_path entity_type new_id post_body =
    write_new os fs (file_path data_path entity_type new_id) post_body new_id

module _ (os : System) (d entity : Bytes) where
  -- The parts of a choice.
  record Chosen (fs fs1 : Nodes) (id : ℤ) : Type 0 where
    ids : List ℤ
    ensured : ensure_directory os fs (entity_path d entity) ≡ ok fs1
    listed : list os fs1 d entity ≡ ok ids
    next : next_id ids ≡ ok id

  choose-Chosen :
      (fs fs1 : Nodes) (id : ℤ) → choose os fs d entity ≡ ok (fs1, id) → Chosen fs fs1 id
  unfolding choose
  choose-Chosen fs fs1 id h =
      let (made, e, h1) = >>=-eq-ok (ensure_directory os fs (entity_path d entity)) _ h in
      let (ids, listed, h2) = >>=-eq-ok (list os made d entity) _ h1 in
      let (new_id, chosen, h3) = >>=-eq-ok (next_id ids) _ h2 in
      let p : ◌≡◌ {A = Nodes × ℤ} (made, new_id) (fs1, id) = cc h3 in
      let q = ap (λ (p : Nodes × ℤ). p.0) p in
      record {
        ids = ids;
        ensured = e ∙ ap ok q;
        listed = ap (λ (m : Nodes). list os m d entity) (sym q) ∙ listed;
        next = chosen ∙ ap ok (ap (λ (p : Nodes × ℤ). p.1) p);
      }

  -- Without another thread in between, the two parts are `create`.
  create-choose :
      (fs fs1 : Nodes) (body : Bytes) (id : ℤ)
      → choose os fs d entity ≡ ok (fs1, id)
      → create os fs d entity body ≡ ok (write os fs1 d entity id body)
  unfolding create write
  create-choose fs fs1 body id h =
      let c = choose-Chosen fs fs1 id h in rw (c.ensured, c.listed, c.next) refl

  -- A second choice before the write is the same.
  choose-again :
      (fs fs1 : Nodes) (id : ℤ)
      → choose os fs d entity ≡ ok (fs1, id)
      → choose os fs1 d entity ≡ ok (fs1, id)
  unfolding choose ensure_directory
  choose-again fs fs1 id h =
      let c = choose-Chosen fs fs1 id h in
      let (_, there) = ensure_directory_lem os fs (entity_path d entity) c.ensured in
      rw (ensured fs1 there, c.listed, c.next) refl
    where
      ensured :
          (fs : Nodes)
          → exists fs (entity_path d entity) ≡ true
          → ensure_directory os fs (entity_path d entity) ≡ ok fs
      ensured fs e = rw e refl

  -- A write to a file that opens.
  write-opened :
      (fs : Nodes) (id : ℤ) (body : Bytes)
      → opens_for_write os fs (file_path d entity id) ≡ true
      → ((write os fs d entity id body).1 ≡ id)
        × (read_file (write os fs d entity id body).0 (file_path d entity id) ≡ some body)
  unfolding write
  write-opened fs id body o =
      let path = file_path d entity id in
      rw (o) (refl, read_file-insert path path (file body) fs ∙ rw (equal_refl path))

  -- Two threads that both choose their number before either writes, where the file opens for both:
  -- both answer the same number, and the file of that number holds the body that was written last,
  -- so that the other body, whose client was given its number, is lost. One after the other, the
  -- two parts are `create`.
  pub create-race :
      (fs fs1 fs2 : Nodes) (id id2 : ℤ) (body body2 : Bytes)
      → choose os fs d entity ≡ ok (fs1, id)
      → choose os fs1 d entity ≡ ok (fs2, id2)
      → opens_for_write os fs2 (file_path d entity id) ≡ true
      → opens_for_write os (write os fs2 d entity id body).0 (file_path d entity id) ≡ true
      → (create os fs d entity body ≡ ok (write os fs1 d entity id body))
        × ((write os fs2 d entity id body).1 ≡ id)
        × ((write os (write os fs2 d entity id body).0 d entity id2 body2).1 ≡ id)
        × (read_file
              (write os (write os fs2 d entity id body).0 d entity id2 body2).0
              (file_path d entity id)
            ≡ some body2)
  create-race fs fs1 fs2 id id2 body body2 h h2 o o2 =
      let p : ◌≡◌ {A = Nodes × ℤ} (fs1, id) (fs2, id2) = cc (sym (choose-again fs fs1 id h) ∙ h2) in
      let q : id2 ≡ id = sym (ap (λ (p : Nodes × ℤ). p.1) p) in
      let (first, _) = write-opened fs2 id body o in
      let (second, stored) = write-opened (write os fs2 d entity id body).0 id body2 o2 in
      (
        create-choose fs fs1 body id h,
        first,
        ap (λ (i : ℤ). (write os (write os fs2 d entity id body).0 d entity i body2).1) q ∙ second,
        ap
              (λ (i : ℤ).
                read_file (write os (write os fs2 d entity id body).0 d entity i body2).0
                  (file_path d entity id))
              q
            ∙ stored,
      )

-- ===== src/Crud/Store/Refinement.antt =====
-- The store of src/crud_store.cc against its specification (Crud/Store/Spec).
use raddish.Base.{List, [], ◌∷◌, Bytes, ◌≡◌}
use raddish.Std.Files.{Nodes, System, read_file}
use raddish.Std.Outcome.{ok}
use raddish.Crud.Store.{file_path, create, retrieve, update, del}
use raddish.Crud.Store.Spec.{Call, create_call, retrieve_call, update_call, del_call, Entries}

module _ (os : System) (d : Bytes) where
  -- The bodies in the files below the data path.
  abbrev pub view : Nodes → Entries
  view fs entity id = read_file fs (file_path d entity id)

  -- The calls of the store with these answers.
  abbrev pub Calls : Nodes → Call → Nodes → Type 0
  Calls fs (create_call entity body answer) fs' = create os fs d entity body ≡ ok (fs', answer)
  Calls fs (retrieve_call entity id answer) fs' =
      (retrieve os fs d entity id ≡ ok answer) × (fs' ≡ fs)
  Calls fs (update_call entity id body answer) fs' =
      update os fs d entity id body ≡ ok (fs', answer)
  Calls fs (del_call entity id answer) fs' = del os fs d entity id ≡ ok (fs', answer)

  abbrev pub CallsAll : Nodes → List Call → Nodes → Type 0
  CallsAll fs [] fs' = fs' ≡ fs
  CallsAll fs (c ∷ cs) fs' = (m : Nodes) × Calls fs c m × CallsAll m cs fs'

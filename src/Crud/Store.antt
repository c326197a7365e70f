-- ===== src/Crud/Store.antt =====
-- `CRUDStore` of src/crud_store.cc, over the nodes of a file system (Std/Files). An entity is a
-- directory in the data path, and an entry is a file in it that is named by its number.
pub mod Sorted
pub mod Ids
pub mod Fresh
pub mod Changes
pub mod Spec
pub mod Refinement
pub mod Race
use raddish.Base.{
  ℕ, zero, suc, ◌+◌, Bool, true, false, not, ◌&&◌, List, [], ◌∷◌, ◌++◌, Bytes, Option, none, some,
  codes, ltb, leb, ◌==◌, ◌^◌, if◌then◌else◌, ℤ, pos, negsuc, inc, equal,
}
use raddish.Std.Map
use raddish.Std.{Exception, invalid_argument, out_of_range, runtime_error, Converted, value, thrown}
use raddish.Std.Files.{
  Node, file, directory, Nodes, System, no_status, exists, is_directory, opens_for_write, erase,
  entries,
}
use raddish.Std.Numbers.{stoi, to_string}
use raddish.Std.Outcome.{Outcome, ok, throw, undefined, ◌>>=◌}

unfoldable pub entity_path : Bytes → Bytes → Bytes
entity_path data_path entity_type = data_path ++ (b'/' ∷ entity_type)

unfoldable pub file_path : Bytes → Bytes → ℤ → Bytes
unfolding entity_path to_string
file_path data_path entity_type id = entity_path data_path entity_type ++ (b'/' ∷ to_string id)

-- The order of two ints.
abbrev pub leb_ℤ : ℤ → ℤ → Bool
leb_ℤ (pos a) (pos b) = leb a b
leb_ℤ (pos a) (negsuc b) = false
leb_ℤ (negsuc a) (pos b) = true
leb_ℤ (negsuc a) (negsuc b) = leb b a

-- `std::sort`, by insertion.
unfoldable pub insert_sorted : ℤ → List ℤ → List ℤ
insert_sorted n [] = n ∷ []
insert_sorted n (m ∷ ms) =
    let rest = m ∷ insert_sorted n ms in if leb_ℤ n m then n ∷ m ∷ ms else rest

unfoldable pub sort : List ℤ → List ℤ
unfolding insert_sorted
sort [] = []
sort (n ∷ ns) = insert_sorted n (sort ns)

-- A file name: its number is added, a name that is no number is passed over, and a number that is
-- no int throws.
abbrev pub add_id : Converted → Outcome (List ℤ) → Outcome (List ℤ)
add_id (value id) rest = do ids ← rest; ok (id ∷ ids)
add_id (thrown invalid_argument) rest = rest
add_id (thrown out_of_range) rest = throw out_of_range
add_id (thrown (runtime_error e)) rest = throw (runtime_error e)

-- The loop over the entries of the directory.
unfoldable pub collect_ids : List (Bytes × Node) → Outcome (List ℤ)
collect_ids [] = ok []
collect_ids ((filename, file _) ∷ es) = add_id (stoi filename) (collect_ids es)
collect_ids ((filename, directory) ∷ es) = collect_ids es

abbrev pub not_a_directory : Exception
not_a_directory = runtime_error (codes "filesystem error: not a directory")

abbrev pub not_readable : Exception
not_readable = runtime_error (codes "filesystem error: directory iterator cannot open directory")

-- `CRUDStore::list`
unfoldable pub list : System → Nodes → Bytes → Bytes → Outcome (List ℤ)
list os fs data_path entity_type =
    let path = entity_path data_path entity_type in
    let ids = (do ids ← collect_ids (entries fs path); ok (sort ids)) in
    if exists fs path
    then (if is_directory fs path
        then (if os.can_read fs path then ids else throw not_readable)
        else throw not_a_directory)
    else if os.fails_status fs path
    then throw no_status
    else ok []

-- `*max_element(ids.begin(), ids.end())` of a list that is not empty.
unfoldable pub max_element : ℤ → List ℤ → ℤ
max_element n [] = n
max_element n (m ∷ ms) = max_element (if leb_ℤ n m then m else n) ms

-- `+ 1` on an int; its overflow is undefined.
abbrev pub add_one : ℤ → Outcome ℤ
add_one (pos n) = if ltb (suc n) (2 ^ 31) then ok (pos (suc n)) else undefined
add_one (negsuc n) = ok (inc (negsuc n))

unfoldable pub next_id : List ℤ → Outcome ℤ
next_id [] = ok (pos 1)
next_id (n ∷ ns) = add_one (max_element n ns)

-- `if (!exists(path)) create_directories(path)`; nothing can be created where `exists` throws.
unfoldable pub ensure_directory : System → Nodes → Bytes → Outcome Nodes
ensure_directory os fs path =
    if exists fs path
    then ok fs
    else if os.can_create fs path
    then ok (Map.insert path directory fs)
    else throw (runtime_error (codes "filesystem error: cannot create directories"))

-- The end of `create`: the file is written, if it opens.
unfoldable pub write_new : System → Nodes → Bytes → Bytes → ℤ → Nodes × ℤ
write_new os fs path post_body new_id =
    if opens_for_write os fs path
    then (Map.insert path (file post_body) fs, new_id)
    else (fs, negsuc 0)

-- `CRUDStore::create`: the new nodes and the new number, or -1 if the file does not open.
unfoldable pub create : System → Nodes → Bytes → Bytes → Bytes → Outcome (Nodes × ℤ)
create os fs data_path entity_type post_body = do
  fs' ← ensure_directory os fs (entity_path data_path entity_type)
  ids ← list os fs' data_path entity_type
  new_id ← next_id ids
  ok (write_new os fs' (file_path data_path entity_type new_id) post_body new_id)

abbrev pub is_a_directory : Exception
is_a_directory =
    runtime_error (codes "basic_filebuf::underflow error reading the file: Is a directory")

-- What the iterators over an open stream read; a directory opens, and its first read throws.
abbrev pub stream_content : Node → Outcome (Option Bytes)
stream_content (file content) = ok (some content)
stream_content directory = throw is_a_directory

-- A node that opens has a status.
abbrev pub read_node : (opens fails_status : Bool) → Option Node → Outcome (Option Bytes)
read_node true fails (some node) = stream_content node
read_node opens true _ = throw no_status
read_node opens false _ = ok none

-- `CRUDStore::retrieve`
unfoldable pub retrieve : System → Nodes → Bytes → Bytes → ℤ → Outcome (Option Bytes)
retrieve os fs data_path entity_type id =
    let path = file_path data_path entity_type id in
    read_node (os.can_read fs path) (os.fails_status fs path) (Map.lookup path fs)

-- The end of `update`: the file is written, if it opens.
unfoldable pub write_over : System → Nodes → Bytes → Bytes → Nodes × Bool
write_over os fs path put_body =
    if opens_for_write os fs path then (Map.insert path (file put_body) fs, true) else (fs, false)

-- `CRUDStore::update`: the new nodes, and whether the file opened.
unfoldable pub update : System → Nodes → Bytes → Bytes → ℤ → Bytes → Outcome (Nodes × Bool)
update os fs data_path entity_type id put_body = do
  let path = file_path data_path entity_type id
  fs' ←
      (if exists fs path
        then ok fs
        else if os.fails_status fs path
        then throw no_status
        else ensure_directory os fs (entity_path data_path entity_type))
  ok (write_over os fs' path put_body)

-- `CRUDStore::del`
unfoldable pub del : System → Nodes → Bytes → Bytes → ℤ → Outcome (Nodes × Bool)
del os fs data_path entity_type id =
    let path = file_path data_path entity_type id in
    if exists fs path
    then (if os.can_remove fs path
        then ok (erase path fs, true)
        else throw (runtime_error (codes "filesystem error: cannot remove")))
    else if os.fails_status fs path
    then throw no_status
    else ok (fs, false)

-- ===== src/Std/Files.antt =====
-- What the program uses of `std::filesystem` and the file streams: a file system is a map from
-- paths to nodes. Whether the operating system lets an operation through is a parameter.
use raddish.Base.{
  Bool, true, false, not, ◌&&◌, List, [], ◌∷◌, ◌++◌, Bytes, Option, none, some, ◌==◌, equal, codes,
  if◌then◌else◌, ◌≡◌, ap, ◌∙◌, arith, equal_iff,
}
use raddish.Std.Map
use raddish.Std.Numbers.{Exception, runtime_error}
use raddish.Std.Map.{Map}

pub data Node : Type 0 where
  file : Bytes → Node
  directory : Node

abbrev pub Nodes : Type 0
Nodes = Map Node

-- Permissions, limits and failures: the operating system's answers, for the nodes and a path. Where
-- `fails_status` holds, the system does not tell whether the path exists, as for a name that is too
-- long, and `exists` throws.
pub record System : Type 0 where
  pub fails_status : Nodes → Bytes → Bool
  pub can_read : Nodes → Bytes → Bool
  pub can_write : Nodes → Bytes → Bool
  pub can_create : Nodes → Bytes → Bool
  pub can_remove : Nodes → Bytes → Bool

-- What `exists` throws.
abbrev pub no_status : Exception
no_status = runtime_error (codes "filesystem error: status")

abbrev pub is_some_node : Option Node → Bool
is_some_node none = false
is_some_node (some _) = true

-- `exists`
unfoldable pub exists : Nodes → Bytes → Bool
unfolding Map.lookup
exists fs path = is_some_node (Map.lookup path fs)

abbrev pub file_content : Option Node → Option Bytes
file_content (some (file content)) = some content
file_content _ = none

-- The content of a regular file.
unfoldable pub read_file : Nodes → Bytes → Option Bytes
unfolding Map.lookup
read_file fs path = file_content (Map.lookup path fs)

abbrev pub is_directory_node : Option Node → Bool
is_directory_node (some directory) = true
is_directory_node _ = false

unfoldable pub is_directory : Nodes → Bytes → Bool
unfolding Map.lookup
is_directory fs path = is_directory_node (Map.lookup path fs)

-- An output stream is open if the path is no directory and the system lets it.
unfoldable pub opens_for_write : System → Nodes → Bytes → Bool
unfolding is_directory
opens_for_write os fs path = not (is_directory fs path) && os.can_write fs path

pub read_file-insert :
    (k j : Bytes) (node : Node) (fs : Nodes)
    → read_file (Map.insert k node fs) j
      ≡ (if equal k j then file_content (some node) else read_file fs j)
unfolding read_file
read_file-insert k j node fs = ap file_content (Map.lookup-insert k j node fs) ∙ ground arith

pub exists-insert :
    (k j : Bytes) (node : Node) (fs : Nodes)
    → exists (Map.insert k node fs) j ≡ (if equal k j then true else exists fs j)
unfolding exists
exists-insert k j node fs = ap is_some_node (Map.lookup-insert k j node fs) ∙ ground arith

-- A path that does not exist holds no file.
pub read_file_of_not_exists : (fs : Nodes) (j : Bytes) → exists fs j ≡ false → read_file fs j ≡ none
unfolding exists read_file
read_file_of_not_exists fs j h = ground arith

-- `remove`
unfoldable pub erase {ℓ} : {V : Type ℓ} → Bytes → Map V → Map V
unfolding equal
erase k [] = []
erase k ((j, v) ∷ m) = let rest = erase k m in if equal j k then rest else (j, v) ∷ rest

pub lookup-erase {ℓ} :
    {V : Type ℓ} (k j : Bytes) (m : Map V)
    → Map.lookup j (erase k m) ≡ (if equal k j then none else Map.lookup j m)
unfolding Map.lookup erase
lookup-erase k j [] = ground arith
lookup-erase k j ((i, w) ∷ m) =
    ground (arith, equal_iff k j, equal_iff i k, equal_iff i j, lookup-erase k j m)

-- The name of a path that lies directly in a directory.
unfoldable pub has_slash : Bytes → Bool
has_slash [] = false
has_slash (c ∷ cs) = let rest = has_slash cs in if c == b'/' then true else rest

abbrev pub plain_name : Bytes → Option Bytes
plain_name name = if has_slash name then none else some name

unfoldable pub child_name : Bytes → Bytes → Option Bytes
unfolding has_slash
child_name [] [] = none
child_name [] (c ∷ cs) = if c == b'/' then plain_name cs else none
child_name (d ∷ ds) [] = none
child_name (d ∷ ds) (c ∷ cs) = let rest = child_name ds cs in if d == c then rest else none

pub child_name-join :
    (dir name : Bytes) → has_slash name ≡ false → child_name dir (dir ++ (b'/' ∷ name)) ≡ some name
unfolding child_name
child_name-join [] name h = rw h
child_name-join (d ∷ ds) name h = ground (arith, child_name-join ds name h)

abbrev pub with_child : Option Bytes → Node → List (Bytes × Node) → List (Bytes × Node)
with_child none node rest = rest
with_child (some name) node rest = (name, node) ∷ rest

-- `directory_iterator`: the names in a directory, with their nodes.
unfoldable pub entries : Nodes → Bytes → List (Bytes × Node)
unfolding child_name
entries [] dir = []
entries ((path, node) ∷ fs) dir = with_child (child_name dir path) node (entries fs dir)

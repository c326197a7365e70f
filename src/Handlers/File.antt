-- ===== src/Handlers/File.antt =====
-- `FileRequestHandler` of src/file_request_handler.cc.
pub mod ContentType
use raddish.Base.{
  ℕ, zero, suc, ◌+◌, ◌-◌, Bool, true, false, ◌&&◌, ◌||◌, List, [], ◌∷◌, ◌++◌, Bytes, Option, none,
  some, codes, equal, ◌==◌, if◌then◌else◌, length, drop,
}
use raddish.Std.Files.{Nodes, System, no_status, exists, read_file}
use raddish.Std.Outcome
use raddish.Std.Outcome.{Outcome}
use raddish.Http.{Beast, Request, Response, Reply, ok, init_response}

-- The byte at an index, 0 past the end.
unfoldable pub char_at : Bytes → ℕ → ℕ
char_at [] i = 0
char_at (c ∷ cs) zero = c
char_at (c ∷ cs) (suc i) = char_at cs i

-- The rounds of `for (int i = file_path.size() - 1; i--; i > 0)` with `i` left, each of which
-- looks at the byte before: the start of the extension, `dot_idx + 1`, which is 0 with no dot.
unfoldable pub dot_loop : ℕ → Bytes → ℕ
unfolding char_at
dot_loop zero s = 0
dot_loop (suc i) s = let rest = dot_loop i s in if char_at s i == b'.' then suc i else rest

-- `file_path.substr(dot_idx+1)`; the last byte is never looked at.
unfoldable pub file_extension : Bytes → Bytes
unfolding dot_loop
file_extension file_path = drop (dot_loop (length file_path - 1) file_path) file_path

unfoldable pub file_extension_to_content_type : Bytes → Bytes
unfolding equal
file_extension_to_content_type e =
    if equal e (codes "html")
    then codes "text/html"
    else if equal e (codes "txt")
    then codes "text/plain"
    else if equal e (codes "jpg") || equal e (codes "jpeg")
    then codes "image/jpeg"
    else if equal e (codes "png")
    then codes "image/png"
    else if equal e (codes "pdf")
    then codes "application/pdf"
    else if equal e (codes "zip")
    then codes "application/zip"
    else if equal e (codes "css")
    then codes "text/css"
    else if equal e (codes "js")
    then codes "text/javascript"
    else codes "application/octet-stream"

-- `get_content_type` of a path that is not empty.
unfoldable pub get_content_type : Bytes → Bytes
unfolding file_extension_to_content_type file_extension
get_content_type file_path = file_extension_to_content_type (file_extension file_path)

abbrev readable : Bool → Option Bytes → Option Bytes
readable true content = content
readable false content = none

-- The content, where the path is a regular file whose stream opens.
unfoldable pub open_file : System → Nodes → Bytes → Option Bytes
unfolding read_file
open_file os fs path = readable (os.can_read fs path) (read_file fs path)

-- The default response is a 404, and stays if there is no file.
abbrev pub reply_with : Response → Bytes → Bool → Option Bytes → Reply
reply_with res path found (some content) = record {
  response = record res { body = content; result = ok; content_type = get_content_type path };
  log_messages = codes "Sent file" ∷ [];
}
reply_with res path true none = record {
  response = res;
  log_messages = (path ++ codes " is not a file") ∷ [];
}
reply_with res path false none = record {
  response = res;
  log_messages = (codes "File does not exist at " ++ path) ∷ [];
}

-- A file that opens has a status; for a path without one `exists` throws.
abbrev pub with_status : Bool → Option Bytes → Reply → Outcome Reply
with_status fails (some _) reply = Outcome.ok reply
with_status true none reply = Outcome.throw no_status
with_status false none reply = Outcome.ok reply

-- `FileRequestHandler::handle_request`, with the root of its location.
unfoldable pub handle_file : Beast → System → Nodes → Bytes → Request → Outcome Reply
unfolding open_file exists init_response get_content_type
handle_file beast os fs root request =
    let file_path = root ++ request.target in
    let content = open_file os fs file_path in
    with_status (os.fails_status fs file_path) content
      (reply_with (init_response beast request) file_path (exists fs file_path) content)

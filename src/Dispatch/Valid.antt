-- ===== src/Dispatch/Valid.antt =====
-- `RequestDispatcher::is_valid_request` of src/request_dispatcher.cc. A `\.` or `\/` of its string
-- is no escape of C++, so the expression has a plain `.` and `/` there.
pub mod Parts
pub mod Form
use raddish.Base.{Bool, [], ◌∷◌, Bytes, codes}
use raddish.Std.Regex.{Regex, seq, alt, star, literal, dot, plus, regex_search}
use raddish.Http.{Beast, Request}

-- (GET|POST|PUT|DELETE)
abbrev pub methods : Regex
methods =
    alt (literal (codes "GET"))
      (alt (literal (codes "POST")) (alt (literal (codes "PUT")) (literal (codes "DELETE"))))

-- (\n|\r\n)
abbrev pub newline : Regex
newline = alt (literal (b'\n' ∷ [])) (literal (b'\r' ∷ b'\n' ∷ []))

-- .+:.+(\n|\r\n)
abbrev pub header : Regex
header = seq (plus dot) (seq (literal (codes ":")) (seq (plus dot) newline))

-- (GET|POST|PUT|DELETE) /.* HTTP/1.1(\n|\r\n)(.+:.+(\n|\r\n))*(\n|\r\n).*
abbrev pub request_regex : Regex
request_regex = seq methods (
    seq (literal (codes " /")) (
      seq (star dot) (
        seq (literal (codes " HTTP/1")) (
          seq dot (
            seq (literal (codes "1"))
              (seq newline (seq (star header) (seq newline (star dot)))))))))

unfoldable pub is_valid_request : Beast → Request → Bool
unfolding regex_search
is_valid_request beast request = regex_search request_regex (beast.print_request request)

-- ===== src/Dispatch/Valid/Form.antt =====
-- What a valid request looks like.
use raddish.Base.{
  ℕ, true, List, [], ◌∷◌, ◌++◌, Bytes, codes, ◌≡◌, ◌≢◌, refl, sym, ◌∙◌, ap, append_assoc, ◌↔◌,
}
use raddish.Http.{Beast, Request}
use raddish.Std.Regex.{seq, done, Matches, regex_search, anything}
use raddish.Std.Regex.Sound.{Matches-regex_match, regex_match-Matches}
use raddish.Dispatch.Valid.{request_regex, is_valid_request}
use raddish.Dispatch.Valid.Parts.{
  NoNul, IsMethod, IsNewline, HeaderPieces, literal-to, literal-from, is_any-to, is_any-from,
  dots-to, dots-from, newline-to, newline-from, methods-to, methods-from, headers-to, headers-from,
  anything-to,
}

abbrev pub concat : List Bytes → Bytes → Bytes
concat [] tail = tail
concat (p ∷ ps) tail = p ++ concat ps tail

-- The head of a request in parts.
abbrev pub parts : Bytes → Bytes → ℕ → Bytes → Bytes → Bytes → List Bytes
parts method path digit first_end headers last_end =
    method
    ∷ codes " /"
    ∷ path
    ∷ codes " HTTP/1"
    ∷ (digit ∷ [])
    ∷ codes "1"
    ∷ first_end
    ∷ headers
    ∷ last_end
    ∷ []

-- A text with a part that looks like the head of a request.
pub record HasHead (text : Bytes) : Type 0 where
  pub before : Bytes
  pub method : Bytes
  pub path : Bytes
  pub digit : ℕ
  pub first_end : Bytes
  pub headers : Bytes
  pub last_end : Bytes
  pub after : Bytes
  pub whole : text ≡ before ++ concat (parts method path digit first_end headers last_end) after
  pub is_method : IsMethod method
  pub no_nul : NoNul path
  pub is_any : digit ≢ 0
  pub is_newline : IsNewline first_end
  pub header_pieces : HeaderPieces headers
  pub is_last : IsNewline last_end

concat-append :
    (parts : List Bytes) (tail after : Bytes)
    → concat parts tail ++ after ≡ concat parts (tail ++ after)
concat-append [] tail after = refl
concat-append (p ∷ ps) tail after =
    append_assoc p (concat ps tail) after ∙ ap (λ ws. p ++ ws) (concat-append ps tail after)

HasHead-Matches : (s : Bytes) → HasHead s → Matches (seq anything (seq request_regex anything)) s
HasHead-Matches s x = (
  x.before,
  _,
  x.whole
      ∙ ap (λ t. x.before ++ t)
          (sym (
            concat-append (parts x.method x.path x.digit x.first_end x.headers x.last_end) []
              x.after)),
  anything-to x.before,
  (
    _,
    x.after,
    refl,
    (
      x.method,
      _,
      refl,
      methods-to x.method x.is_method,
      (
        codes " /",
        _,
        refl,
        literal-to (codes " /") _ refl,
        (
          x.path,
          _,
          refl,
          dots-to x.path x.no_nul,
          (
            codes " HTTP/1",
            _,
            refl,
            literal-to (codes " HTTP/1") _ refl,
            (
              x.digit ∷ [],
              _,
              refl,
              (x.digit, refl, is_any-to x.digit x.is_any),
              (
                codes "1",
                _,
                refl,
                literal-to (codes "1") _ refl,
                (
                  x.first_end,
                  _,
                  refl,
                  newline-to x.first_end x.is_newline,
                  (
                    x.headers,
                    _,
                    refl,
                    headers-to x.header_pieces,
                    (x.last_end, [], refl, newline-to x.last_end x.is_last, done refl),
                  ),
                ),
              ),
            ),
          ),
        ),
      ),
    ),
    anything-to x.after,
  ),
)

join : {s xs xs' ys ys' : Bytes} → s ≡ xs ++ ys → xs ≡ xs' → ys ≡ ys' → s ≡ xs' ++ ys'
join {xs' = xs'} {ys = ys} e f g = e ∙ ap (λ xs. xs ++ ys) f ∙ ap (λ ys. xs' ++ ys) g

Matches-HasHead : (s : Bytes) → Matches (seq anything (seq request_regex anything)) s → HasHead s
Matches-HasHead s
      (
        before,
        t,
        e0,
        _,
        (
          part,
          after,
          e1,
          (
            m,
            t1,
            f1,
            m1,
            (
              sl,
              t2,
              f2,
              m2,
              (
                path,
                t3,
                f3,
                m3,
                (
                  http,
                  t4,
                  f4,
                  m4,
                  (
                    d,
                    t5,
                    f5,
                    (digit, f, g),
                    (one, t6, f6, m6, (n, t7, f7, m7, (h, t8, f8, m8, (l, body, f9, m9, _)))),
                  ),
                ),
              ),
            ),
          ),
          _,
        ),
      ) =
    record {
      before = before;
      method = m;
      path = path;
      digit = digit;
      first_end = n;
      headers = h;
      last_end = l;
      after = body ++ after;
      whole = join e0 refl (
          e1
          ∙ ap (λ ys. ys ++ after) whole_part
          ∙ concat-append (parts m path digit n h l) body after);
      is_method = methods-from m m1;
      no_nul = dots-from m3;
      is_any = is_any-from digit g;
      is_newline = newline-from n m7;
      header_pieces = headers-from m8;
      is_last = newline-from l m9;
    }
  where
    whole_part : part ≡ concat (parts m path digit n h l) body
    whole_part = join f1 refl (
        join f2 (literal-from (codes " /") sl m2) (
          join f3 refl (
            join f4 (literal-from (codes " HTTP/1") http m4) (
              join f5 f
                (join f6 (literal-from (codes "1") one m6) (join f7 refl (join f8 refl f9)))))))

-- A request is valid if and only if some part of its printed form, wherever it starts, looks like
-- the head of a request: one of the four methods, a blank and a slash, bytes that are not NUL, a
-- blank and HTTP/1, any byte but NUL, a 1, and a line end; then any number of pieces, each of one
-- byte at least, a colon, one byte at least and a line end, where the bytes are any but NUL, so that
-- a piece may go over several lines; and a line end.
pub is_valid_request-HasHead :
    (beast : Beast) (request : Request)
    → (is_valid_request beast request ≡ true) ↔ HasHead (beast.print_request request)
unfolding is_valid_request regex_search
is_valid_request-HasHead beast request =
    let text = beast.print_request request in
    let pattern = seq anything (seq request_regex anything) in
    (
      λ e. Matches-HasHead text (regex_match-Matches pattern text e),
      λ h. Matches-regex_match pattern text (HasHead-Matches text h),
    )

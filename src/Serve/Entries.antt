-- ===== src/Serve/Entries.antt =====
-- The entries for the metrics among what the dispatcher and the handlers of src/ log.
use raddish.Base.{
  pos, ℕ, Bool, true, false, List, [], ◌∷◌, ◌++◌, Bytes, codes, equal, equal_iff, equal_refl, ◌==◌,
  if◌then◌else◌, ◌≡◌, refl, ◌∙◌, sym, ap, arith, Bool-cases, inl, inr,
}
use raddish.Http.{
  Request, Response, AddrInfo, LogEntry, result_int, log_machine, log_request, process_of, Beast,
  method_string, info,
}
use raddish.Std.Numbers.{to_string}
use raddish.Serve.{Platform, dispatch_log, refused_log, dispatch_process, path_entry}

abbrev pub metrics_name : Bytes
metrics_name = codes "ResponseMetrics"

-- The entries for the metrics.
unfoldable pub metrics : List LogEntry → List LogEntry
metrics [] = []
metrics (e ∷ es) = let rest = metrics es in if equal e.process metrics_name then e ∷ rest else rest

-- The entry for a response.
unfoldable pub metrics_entry : Bytes → Bytes → ℕ → Bytes → LogEntry
metrics_entry client name status target = record {
  process = metrics_name;
  severity = info;
  message =
      codes "response_code:"
      ++ (to_string (pos status)
          ++ (codes " request_path:"
              ++ (target
                  ++ (codes " request_ip:"
                      ++ (client ++ (codes " request_handler_name:" ++ name))))));
}

has_space : Bytes → Bool
has_space [] = false
has_space (c ∷ cs) = let rest = has_space cs in if c == b' ' then true else rest

has_space-append : (xs ys : Bytes) → has_space (xs ++ (b' ' ∷ ys)) ≡ true
unfolding has_space
has_space-append [] ys = refl
has_space-append (x ∷ xs) ys = ground (arith, has_space-append xs ys)

has_space-metrics_name : has_space metrics_name ≡ false
unfolding has_space
has_space-metrics_name = refl

-- The name of a class behind a method and a path is another one.
other_process : (xs ys : Bytes) → equal (xs ++ (b' ' ∷ ys)) metrics_name ≡ false
other_process xs ys = elim (Bool-cases (equal (xs ++ (b' ' ∷ ys)) metrics_name)) [
  | inl e ↦
      let p : xs ++ (b' ' ∷ ys) ≡ metrics_name = (equal_iff _ _).0 e in
      cc (sym (has_space-append xs ys) ∙ ap has_space p ∙ has_space-metrics_name)
  | inr e ↦ e
]

pub metrics-append : (xs ys : List LogEntry) → metrics (xs ++ ys) ≡ metrics xs ++ metrics ys
unfolding metrics
metrics-append [] ys = refl
metrics-append (x ∷ xs) ys = ground (arith, metrics-append xs ys)

module _ (p : Platform) where
  pub metrics-dispatch_log :
      (request : Request) (client : Bytes) → metrics (dispatch_log p request client) ≡ []
  unfolding metrics dispatch_log dispatch_process
  metrics-dispatch_log request client =
      rw (other_process (method_string request.method) (request.target ++ codes " - Req Dispatch"))
        refl

  pub metrics-path_entry :
      (request : Request) (client : Bytes)
      → metrics (dispatch_log p request client ++ path_entry p request ∷ []) ≡ []
  unfolding metrics path_entry dispatch_process
  metrics-path_entry request client =
      metrics-append (dispatch_log p request client) (path_entry p request ∷ [])
      ∙ rw
          (
            metrics-dispatch_log request client,
            other_process (method_string request.method)
                (request.target ++ codes " - Req Dispatch"),
          )
          refl

  pub metrics-refused_log :
      (request : Request) (client : Bytes)
      → metrics (refused_log p request client)
        ≡ metrics_entry client (codes "BadRequestHandler") 400 request.target ∷ []
  unfolding metrics refused_log dispatch_process metrics_entry log_machine
  metrics-refused_log request client =
      rw
        (
          other_process (method_string request.method) (request.target ++ codes " - Req Dispatch"),
          equal_refl metrics_name,
        )
        refl

pub metrics-log_request :
    (beast : Beast) (addr : AddrInfo) (name : Bytes) (request : Request) (response : Response)
    (message : Bytes)
    → metrics (log_request beast addr name request response message)
      ≡ metrics_entry addr.client_addr name (result_int response.result) request.target ∷ []
unfolding metrics log_request process_of metrics_entry log_machine
metrics-log_request beast addr name request response message =
    rw
      (
        other_process (method_string request.method) (request.target ++ (codes " - " ++ name)),
        equal_refl metrics_name,
      )
      refl

-- ===== src/Serve/Metrics.antt =====
-- The entry for the metrics that each answered request leaves in the log.
use raddish.Base.{
  ℕ, Bool, true, false, List, [], ◌∷◌, ◌++◌, Bytes, codes, Option, none, some, ◌≡◌, refl, ◌∙◌, sym,
  ap,
}
use raddish.Std.Outcome
use raddish.Config.Settings.{ConfigInfo}
use raddish.Http.{Request, Response, AddrInfo, LogEntry, result_int, log_request, Beast}
use raddish.Dispatch.{
  Handler, Dispatched, refused, handled, exits, Search, call_factory, dispatch_request,
  handler_data, bad_request_response,
}
use raddish.Dispatch.Valid.{is_valid_request}
use raddish.Serve.{
  Endpoint, endpoint_text, create_response, Platform, World, Called, answered, respond, serve_as,
  served, log_replies, handler_name, dispatch_log, refused_log, path_entry, call,
}
use raddish.Handlers.Once.{Once}
use raddish.Serve.Once.{call-Once}
use raddish.Serve.Entries.{
  metrics-path_entry, metrics-dispatch_log, metrics-refused_log, metrics, metrics_entry,
  metrics-append, metrics-log_request,
}

-- Whether the dispatcher chose a handler of this name, or refused the request.
abbrev pub Chosen : Dispatched → Bytes → Type 0
Chosen (refused _) name = name ≡ codes "BadRequestHandler"
Chosen (handled h _) name = name ≡ handler_name h
Chosen exits name = ⊥
Chosen Dispatched.undefined name = ⊥

-- What a dispatched request is given, and the status of a refusal.
abbrev HasClient : Bytes → Dispatched → Type 0
HasClient client (refused response) = result_int response.result ≡ 400
HasClient client (handled h config) = config.addr_info.client_addr ≡ client
HasClient client exits = Unit
HasClient client Dispatched.undefined = Unit

call_factory-HasClient :
    (config : ConfigInfo) (host client : Bytes) (o : Option Search)
    → HasClient client (call_factory config host client o)
unfolding handler_data
call_factory-HasClient config host client none = tt
call_factory-HasClient config host client (some s) = go s.longest s.factory
  where
    go :
        (longest : Bytes) (f : Option Handler)
        → HasClient client
            (call_factory config host client (some (record { longest = longest; factory = f })))
    go longest none = tt
    go longest (some h) = refl

dispatch_request-HasClient :
    (stray : ℕ) (beast : Beast) (is_valid : Bool) (request : Request) (config : ConfigInfo)
    (host client : Bytes)
    → HasClient client (dispatch_request stray beast is_valid request config host client)
unfolding dispatch_request bad_request_response
dispatch_request-HasClient stray beast false request config host client = refl
dispatch_request-HasClient stray beast true request config host client =
    call_factory-HasClient config host client _

module _ (p : Platform) where
  -- One entry for the metrics, of the response.
  abbrev Logged : Bytes → Bytes → Bytes → Response → List LogEntry → Type 0
  Logged client target name response log =
      metrics log ≡ metrics_entry client name (result_int response.result) target ∷ []

  served-Logged :
      (h : Handler) (addr : AddrInfo) (request : Request) (client : Bytes) (c : Called) (w : World)
      (response : Response) (log : List LogEntry)
      → Once c
      → addr.client_addr ≡ client
      → served p h addr request (dispatch_log p request client ++ path_entry p request ∷ []) c
        ≡ answered w response log
      → Logged client request.target (handler_name h) response log
  unfolding Once log_replies metrics
  served-Logged h addr request client (Outcome.ok (w1, reply)) w response log (m, o) a e =
      let before : List LogEntry = dispatch_log p request client ++ path_entry p request ∷ [] in
      let entries : List LogEntry =
        log_replies p.beast addr (handler_name h) request reply.response reply.log_messages in
      let r : reply.response ≡ response = cc e in
      let l : before ++ entries ≡ log = cc e in
      sym (ap metrics l)
      ∙ metrics-append before entries
      ∙ ap (λ (es : List LogEntry). es ++ metrics entries) (metrics-path_entry p request client)
      ∙ ap
          (λ (ms : List Bytes).
            metrics (log_replies p.beast addr (handler_name h) request reply.response ms))
          o
      ∙ metrics-append (log_request p.beast addr (handler_name h) request reply.response m) []
      ∙ ap (λ (es : List LogEntry). es ++ [])
          (metrics-log_request p.beast addr (handler_name h) request reply.response m)
      ∙ (λ i. metrics_entry (a i) (handler_name h) (result_int (r i).result) request.target ∷ [])
  served-Logged h addr request client (Outcome.throw x) w response log o a e = cc e
  served-Logged h addr request client Outcome.undefined w response log o a e = cc e

  serve_as-Logged :
      (w w' : World) (request : Request) (client : Bytes) (d : Dispatched) (response : Response)
      (log : List LogEntry)
      → HasClient client d
      → serve_as p w request client d ≡ answered w' response log
      → (name : Bytes) × Chosen d name × Logged client request.target name response log
  serve_as-Logged w w' request client (refused response) response' log a e =
      let before : List LogEntry = dispatch_log p request client in
      let entries : List LogEntry = refused_log p request client in
      let r : response ≡ response' = cc e in
      let l : before ++ entries ≡ log = cc e in
      (
        codes "BadRequestHandler",
        refl,
        sym (ap metrics l)
            ∙ metrics-append before entries
            ∙ ap (λ (es : List LogEntry). es ++ metrics entries)
                (metrics-dispatch_log p request client)
            ∙ metrics-refused_log p request client
            ∙ ap (λ (n : ℕ). metrics_entry client (codes "BadRequestHandler") n request.target ∷ [])
                (sym a ∙ ap (λ (x : Response). result_int x.result) r),
      )
  serve_as-Logged w w' request client (handled h config) response log a e = (
    handler_name h,
    refl,
    served-Logged h config.addr_info request client (call p h config w request) w' response log
        (call-Once p h config w request) a e,
  )
  serve_as-Logged w w' request client exits response log a e = cc e
  serve_as-Logged w w' request client Dispatched.undefined response log a e = cc e

-- Every request that is answered leaves exactly one entry for the metrics: it has the status of the
-- response, the path of the request, the client's address, and the name of the handler that the
-- dispatcher chose or of the refusal.
pub respond-metrics :
    (p : Platform) (config : ConfigInfo) (host client : Bytes) (w w' : World) (request : Request)
    (response : Response) (log : List LogEntry)
    → respond p config host client w request ≡ answered w' response log
    → (name : Bytes) × Chosen
        (dispatch_request p.stray p.beast
          (is_valid_request p.beast request)
          request
          config
          host
          client)
        name
      × (metrics log ≡ metrics_entry client name (result_int response.result) request.target ∷ [])
unfolding respond
respond-metrics p config host client w w' request response log e =
    serve_as-Logged p w w' request client _ response log
      (dispatch_request-HasClient p.stray p.beast (is_valid_request p.beast request) request config
        host client)
      e

-- If a session's socket has both endpoints, then every request that it answers, by whichever handler,
-- leaves exactly one entry for the metrics: its text is the status of the response, the path of the
-- request, the remote endpoint as the IP, and the name of the handler that the dispatcher chose or of
-- the refusal, each behind its label.
pub create_response-metrics :
    (p : Platform) (config : ConfigInfo) (near far : Endpoint) (w w' : World) (request : Request)
    (response : Response) (log : List LogEntry)
    → create_response p
        (record { local_endpoint = some near; remote_endpoint = some far })
        config
        w
        request
      ≡ answered w' response log
    → (name : Bytes) × Chosen
        (dispatch_request p.stray p.beast
          (is_valid_request p.beast request)
          request
          config
          (endpoint_text near)
          (endpoint_text far))
        name
      × (metrics log
          ≡ metrics_entry (endpoint_text far) name (result_int response.result) request.target ∷ [])
unfolding create_response
create_response-metrics p config near far w w' request response log e =
    respond-metrics p config (endpoint_text near) (endpoint_text far) w w' request response log e

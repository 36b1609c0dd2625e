-- ===== src/Gateway/Proxy.antt =====
-- The proxy of api-gateway (services/api-gateway/app/services/proxy_service.py, router.py) and the
-- chain of middlewares of main.py around it: authentication, then metrics, then the router. What a
-- service answers, and `propagate.inject` of OpenTelemetry, are arguments.
use micro_mart.Shared.{
  ℕ, String, Bool, true, false, ◌&&◌, not, Option, none, some, List, [], ◌∷◌, ◌++◌, keep_if,
  if◌then◌else◌,
}
use micro_mart.Shared.Texts.{Text, codes, same, lower}
use micro_mart.Gateway.Paths.{Urls, get_target_url}
use micro_mart.Gateway.Dispatch.{
  Headers, Request, Reply, Jwt, GatewayState, call_next, refused, raised, dispatch, count_request,
}

abbrev pub hop_by_hop_headers : List Text
hop_by_hop_headers =
    codes "connection"
    ∷ codes "keep-alive"
    ∷ codes "transfer-encoding"
    ∷ codes "te"
    ∷ codes "trailers"
    ∷ codes "upgrade"
    ∷ codes "proxy-authenticate"
    ∷ codes "proxy-authorization"
    ∷ codes "host"
    ∷ codes "content-length"
    ∷ []

abbrev pub response_header_excludes : List Text
response_header_excludes = codes "content-encoding" ∷ hop_by_hop_headers

abbrev pub is_among : List Text → Text → Bool
is_among [] name = false
is_among (n ∷ names) name = if same name n then true else is_among names name

-- `headers[key] = value` on a dictionary.
abbrev pub put_header : Text → Text → Headers → Headers
put_header key value [] = (key, value) ∷ []
put_header key value ((k, v) ∷ headers) =
    if same key k then (k, value) ∷ headers else (k, v) ∷ put_header key value headers

abbrev pub get_header : Text → Headers → Option Text
get_header key [] = none
get_header key ((k, v) ∷ headers) = if same key k then some v else get_header key headers

-- The loop over the request's headers.
abbrev pub forwarded_headers : Headers → Headers → Headers
forwarded_headers [] headers = headers
forwarded_headers ((key, value) ∷ rest) headers =
    forwarded_headers rest
      (if is_among hop_by_hop_headers (lower key) then headers else put_header key value headers)

-- What is sent to a service, and what comes of it.
pub record Outgoing : Type 0 where
  pub method : Text
  pub url : Text
  pub headers : Headers
  pub content : Text

pub data Upstream : Type 0 where
  answered : Reply → Upstream
  timed_out unreachable : Upstream

-- The methods of the catch-all route; FastAPI answers 405 to any other.
abbrev pub routed_methods : List Text
routed_methods = codes "GET" ∷ codes "POST" ∷ codes "PUT" ∷ codes "DELETE" ∷ codes "PATCH" ∷ []

abbrev pub json_headers : Headers
json_headers = (codes "content-type", codes "application/json") ∷ []

abbrev pub failure_reply : ℕ → String → Reply
failure_reply status content = record {
  status_code = status;
  headers = json_headers;
  content = codes content;
}

abbrev pub not_found : Reply
not_found = failure_reply 404 "{\"detail\": \"존재하지 않는 경로입니다.\", \"code\": \"NOT_FOUND\"}"

module _ (inject : Headers → Headers) where
  abbrev pub outgoing : Request → Text → Outgoing
  outgoing request target_url =
      let url = target_url ++ request.path in
      record {
        method = request.method;
        url = if same request.query [] then url else url ++ codes "?" ++ request.query;
        headers = inject (forwarded_headers request.headers []);
        content = request.body;
      }

abbrev pub relay : Upstream → Reply
relay (answered reply) = record reply {
  headers = keep_if (λ h. not (is_among response_header_excludes (lower h.0))) reply.headers;
}
relay timed_out =
    failure_reply 504 "{\"detail\": \"하위 서비스 응답 시간 초과\", \"code\": \"GATEWAY_TIMEOUT\"}"
relay unreachable =
    failure_reply 503 "{\"detail\": \"하위 서비스를 사용할 수 없습니다\", \"code\": \"SERVICE_UNAVAILABLE\"}"

module _ (inject : Headers → Headers) (send : Outgoing → Upstream) where
  unfoldable pub proxy_request : Request → Text → Reply
  proxy_request request target_url = relay (send (outgoing inject request target_url))

  unfoldable pub gateway_proxy : Urls → Request → Reply
  gateway_proxy settings request = elim (get_target_url settings request.path) [
    | none ↦ not_found
    | some target_url ↦ proxy_request request target_url
  ]

  -- `health_check` is registered before the router; its body is left out.
  abbrev pub route : Urls → Request → Reply
  route settings request =
      if same request.method (codes "GET") && same request.path (codes "/health")
      then record { status_code = 200; headers = json_headers; content = [] }
      else if is_among routed_methods request.method
      then gateway_proxy settings request
      else record { status_code = 405; headers = json_headers; content = [] }

  -- One request, as the chain answers it; what a JSONResponse has as its text is left out.
  unfoldable pub serve :
      {K : Type 0}
      → Jwt K
      → ℕ
      → ℕ
      → Urls
      → Option (List (Option String × K))
      → Request
      → GatewayState K
      → Reply × GatewayState K
  serve jwt ttl now settings answer request g =
      let (verdict, g') = dispatch jwt ttl now answer request g in
      elim verdict [
        | refused reason ↦ (record { status_code = 401; headers = json_headers; content = [] }, g')
        | raised ↦ (
          record { status_code = 500; headers = []; content = codes "Internal Server Error" },
          g',
        )
        | call_next request' ↦
            let reply = route settings request' in
            (reply, record g' { counters = count_request request' reply g'.counters })
      ]

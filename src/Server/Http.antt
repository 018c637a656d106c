-- ===== src/Server/Http.antt =====
-- The metrics endpoint of src/server.py. The lines of a request are given decoded.
use lite_store.Base.{ℕ, Option, none, some, List, [], ◌∷◌, ◌++◌, ◌==◌, if◌then◌else◌, ite, length}
use lite_store.Base.Text.{Text, text, Text-discrete, strip, split, decimal}
use lite_store.Router.{Hashing}
use lite_store.Metrics.{Floats, MetricsCollector}
use lite_store.Metrics.Rendering.{render_prometheus, join}

pub record HttpResponse : Type 0 where
  pub status_code : ℕ
  pub content_type : Text
  pub body : Text

-- the response with the text of the metrics
abbrev pub metrics_response : Option Text → Option HttpResponse
metrics_response none = none
metrics_response (some body) = some (record {
  status_code = 200;
  content_type = text "text/plain; version=0.0.4; charset=utf-8";
  body = body;
})

-- MetricsHttpEndpoint.handle_request, with `none` for an exception of `render_prometheus`
unfoldable pub handle_request : Floats → MetricsCollector → Text → Option HttpResponse
unfolding render_prometheus
handle_request f metrics path =
    ite (Text-discrete path (text "/metrics")) (metrics_response (render_prometheus f metrics)) (
      some (record {
        status_code = 404;
        content_type = text "text/plain; charset=utf-8";
        body = text "not found\n";
      }))

-- _reason_phrase
unfoldable pub reason_phrase : ℕ → Text
reason_phrase status_code =
    if status_code == 200
    then text "OK"
    else if status_code == 404
    then text "Not Found"
    else text "Error"

-- the path of a request line
unfoldable pub request_path : Text → Text
unfolding strip split
request_path [] = text "/"
request_path (c ∷ line) = second (split (strip (c ∷ line)))
  where
    second : List Text → Text
    second (_ ∷ path ∷ _) = path
    second _ = text "/"

-- what `_handle_metrics_http` writes for a response
unfoldable pub http_text : Hashing → HttpResponse → Text
unfolding reason_phrase join
http_text h r =
    join (13 ∷ 10 ∷ []) (
      (text "HTTP/1.1 " ++ decimal r.status_code ++ text " " ++ reason_phrase r.status_code)
      ∷ (text "Content-Type: " ++ r.content_type)
      ∷ (text "Content-Length: " ++ decimal (length (h.encode r.body)))
      ∷ text "Connection: close"
      ∷ []
      ∷ []
      ∷ [])
    ++ r.body

abbrev pub written : Hashing → Option HttpResponse → Option Text
written h none = none
written h (some r) = some (http_text h r)

-- `_handle_metrics_http` for a request line; the lines after it are read and have no effect
unfoldable pub handle_metrics_http : Floats → Hashing → MetricsCollector → Text → Option Text
unfolding handle_request request_path http_text
handle_metrics_http f h metrics line = written h (handle_request f metrics (request_path line))

-- ===== src/Health/Endpoints.antt =====
-- `(*HealthRegistry).ServeHTTP`, and that of one connection in routine.go. The body of /readyz is the
-- report itself; its encoding as JSON is left out, and does not fail on such a map.
pub mod Blind
use wireproxy.Base.{ℕ, List, [], if◌then◌else◌}
use wireproxy.Health.{Registry, Tunnel, add, readyz, metrics}
use wireproxy.Text.Paths.{clean_path}
use wireproxy.Text.{Text, codes, text_eq}

-- The status 404, a status with the report, or 200 with the dumps.
pub data Response : Type 0 where
  not_found : Response
  report : ℕ → List (Text × List (Text × ℕ)) → Response
  dumps : Text → Response

unfoldable pub serve_http : ℕ → Registry → Text → Response
unfolding clean_path readyz metrics
serve_http now conns path =
    let cleaned = clean_path path in
    if text_eq cleaned (codes "/readyz")
    then (let r = readyz now conns in report r.0 r.1)
    else if text_eq cleaned (codes "/metrics")
    then dumps (metrics conns)
    else not_found

unfoldable pub tunnel_serve_http : ℕ → Tunnel → Text → Response
unfolding serve_http add
tunnel_serve_http now vt path = serve_http now (add [] vt) path

-- ===== src/Clustering/Manager/Tests.antt =====
-- A manager that serves some requests.
use moco.Clustering.Manager.Refinement.{view_of, answer_all, serve_all-answer_all}
use moco.Prelude.{◌≡◌, true, false, List, [], ◌∷◌}
use moco.Clustering.Manager.{
  Request, update_request, stop_request, pause_request, stop_all_request, serve_all, new_manager,
}

abbrev requests : List Request
requests =
    update_request "ns/a" false "test"
    ∷ update_request "ns/b" false "test"
    ∷ update_request "ns/a" true "test"
    ∷ stop_request "ns/a"
    ∷ pause_request "ns/b"
    ∷ update_request "ns/a" false "again"
    ∷ stop_all_request
    ∷ []

serve_all-answer_all_example :
    view_of (serve_all requests new_manager) ≡ answer_all requests (view_of new_manager)
serve_all-answer_all_example = serve_all-answer_all requests new_manager

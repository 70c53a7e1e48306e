-- ===== src/Guard/Samples.antt =====
-- A sample request to the middleware, for the tests.
use deployguardai.Prelude.{ℕ, true, false, List, [], ◌∷◌}
use deployguardai.Prelude.Int.{pos}
use deployguardai.Guard.{Settings, HttpRequest, declared}
use deployguardai.Guard.Limiter.{Key}
use deployguardai.Guard.Body.{http_request, disconnect}

abbrev pub sample_settings : Settings
sample_settings = record { max_body_bytes = 100; limit = 1; window = 60 }

abbrev pub webhook : HttpRequest
webhook = record {
  method = "POST";
  path = "/api/v1/webhooks/github";
  client = "10.0.0.1";
  content_length = declared (pos 30);
  messages = http_request (123 ∷ 10 ∷ []) true ∷ http_request (125 ∷ []) false ∷ disconnect ∷ [];
}

abbrev pub client_key : Key
client_key = ("10.0.0.1", "/api/v1/webhooks/github")

abbrev pub other_key : Key
other_key = ("10.0.0.2", "/api/v1/webhooks/github")

-- Three requests of one client and one of another.
abbrev pub arrivals : List (Key × ℕ)
arrivals = (client_key, 0) ∷ (other_key, 5) ∷ (client_key, 59) ∷ (client_key, 60) ∷ []

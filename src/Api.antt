-- ===== src/Api.antt =====
-- internal/api/frontend/js/api.js: the wrapper by which every tab calls the server.
pub mod Failures
use chirpstack_simulator.Prelude.{
  ℕ, Text, Bool, true, false, Option, none, some, List, [], ◌∷◌, ◌++◌, ◌==◌, ◌&&◌, not, codes,
  text_eq, if◌then◌else◌,
}

-- The answer to `fetch`. `json` is `none` where `resp.json()` throws.
pub record Response (Json : Type 0) : Type 0 where
  pub status : ℕ
  pub ok : Bool
  pub json : Option Json

-- How `fetch` ends: with an answer, or with an error and its message.
pub data Fetched (Json : Type 0) : Type 0 where
  response : Response Json → Fetched Json
  network_error : Text → Fetched Json

pub data Body (Json : Type 0) : Type 0 where
  parsed : Json → Body Json
  only_error : Text → Body Json

pub record Reply (Json : Type 0) : Type 0 where
  pub ok : Bool
  pub status : ℕ
  pub body : Body Json

-- `method`, `path` and `body`, which has no value where it is left out.
pub record Call (Json : Type 0) : Type 0 where
  pub method : Text
  pub path : Text
  pub body : Option Json

-- What the wrapper does beside its reply. Both entries of the log have the level "error".
pub data Effect (Json : Type 0) : Type 0 where
  show_login_screen : Effect Json
  log_failed : Call Json → ℕ → Body Json → Effect Json
  log_network_error : Call Json → Text → Effect Json

-- The test for which an answer of 401 opens the login screen.
unfoldable pub needs_login : ℕ → Text → Bool
needs_login status path =
    status == 401
    && not (text_eq path (codes "/api/auth/login"))
    && not (text_eq path (codes "/api/auth/status"))

module _ {Json : Type 0} where
  unfoldable pub body_of : Option Json → Body Json
  body_of none = only_error (codes "Failed to parse JSON response")
  body_of (some value) = parsed value

  unfoldable pub api : Call Json → Fetched Json → Reply Json × List (Effect Json)
  unfolding body_of needs_login
  api call (response r) =
      let value = body_of r.json in
      let login = if needs_login r.status call.path then show_login_screen ∷ [] else [] in
      let logged = if not r.ok then log_failed call r.status value ∷ [] else [] in
      (record { ok = r.ok; status = r.status; body = value }, login ++ logged)
  api call (network_error message) = (
    record { ok = false; status = 0; body = only_error message },
    log_network_error call message ∷ [],
  )

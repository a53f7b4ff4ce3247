-- ===== src/Http.antt =====
-- What lies outside the client: the HTTP transport (httpx) and Python's `json`. Both are fields of a
-- record over an unknown state of the outside world. A client's method is an action of `Exec`.
pub mod Preserves
use asterixdb_mcp_server.Prelude.{ℕ, String, Option, List}
use asterixdb_mcp_server.Prelude.Dict.{Dict}
use asterixdb_mcp_server.Errors.{GatewayError, Result, ok, err, crash}
use asterixdb_mcp_server.Json.{Json}

abbrev pub Form : Type 0
Form = Dict String

-- How a request ends: a response, or an exception of httpx with its text. `stale` stands for the
-- four classes of `_STALE_CONNECTION_ERRORS`, `timed_out` for `TimeoutException`, `failed` for any
-- other `HTTPError`.
pub data Transport : Type 0 where
  response : (status_code : ℕ) (content : List ℕ) → Transport
  stale : String → Transport
  timed_out : String → Transport
  failed : String → Transport

pub record Env (W : Type 0) : Type 0 where
  pub post : (path : String) (form : Form) (headers : Form) → W → Transport × W
  pub get : (path : String) (params : Form) (headers : Form) → W → Transport × W
  pub delete : (path : String) (params : Form) (headers : Form) → W → Transport × W
  -- `json.loads`, `none` on a `JSONDecodeError`; `json.dumps`; `str` of a list or a dict
  pub loads : List ℕ → Option Json
  pub dumps : Json → String
  pub container_text : Json → String

abbrev pub Exec : Type 0 → Type 0 → Type 0
Exec W A = W → Result A × W

module _ {W A : Type 0} where
  abbrev pub pure : A → Exec W A
  pure a w = (ok a, w)

  abbrev pub raise : GatewayError → Exec W A
  raise e w = (err e, w)

  abbrev pub lift : Result A → Exec W A
  lift r w = (r, w)

module _ {W A B : Type 0} where
  abbrev pub continue : Result A → (A → Exec W B) → Exec W B
  continue (ok a) f w = f a w
  continue (err e) f w = (err e, w)
  continue crash f w = (crash, w)

  infixl 10 ◌>>=◌ ◌>>◌
  unfoldable pub ◌>>=◌ : Exec W A → (A → Exec W B) → Exec W B
  ◌>>=◌ m f w = let (r, w') = m w in continue r f w'

  abbrev pub ◌>>◌ : Exec W A → Exec W B → Exec W B
  m >> n = m >>= λ _. n

  -- `try: m; except GatewayError as err: h(err)`
  abbrev handle : Result A → (A → Exec W B) → (GatewayError → Exec W B) → Exec W B
  handle (ok a) f h w = f a w
  handle (err e) f h w = h e w
  handle crash f h w = (crash, w)

  unfoldable pub try_except : Exec W A → (A → Exec W B) → (GatewayError → Exec W B) → Exec W B
  try_except m f h w = let (r, w') = m w in handle r f h w'

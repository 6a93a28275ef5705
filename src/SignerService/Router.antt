-- ===== src/SignerService/Router.antt =====
-- What the server takes of go-chi/chi and net/http: a router, and a server that listens. Both are
-- parameters.
use covenant_signer.Prelude.{
  Bool, not, ◌==◌, ◌||◌, ◌≡◌, ◌≢◌, ◌⊎◌, List, [], ◌∷◌, true, false, ◌&&◌, if◌then◌else◌,
  bytes_equal, bytes_equal_iff, arith,
}
use covenant_signer.Prelude.Int.{ℤ}
use covenant_signer.Go.Text.{GoString, str}
use covenant_signer.Go.Exec.{Call}
use covenant_signer.SignerService.Http.{Request}
use covenant_signer.SignerService.Middlewares.{Handler}

abbrev pub Middleware : Type 0 → Type 0
Middleware S = Handler S → Handler S

-- `chi.Mux`: `Use`, `Post` and `ServeHTTP`
pub record Chi (S : Type 0) : Type 1 where
  pub Mux : Type 0
  pub new_router : Mux
  pub use_middleware : Middleware S → Mux → Mux
  pub post : GoString → Handler S → Mux → Mux
  pub serve_http : Mux → Handler S
  -- what it answers where no route fits, with 404 or 405
  pub refuse : Handler S

-- A pattern without placeholders or wildcards stands for itself.
abbrev pub is_literal : GoString → Bool
is_literal [] = true
is_literal (c ∷ pattern) = not (c == b'{' || c == b'}' || c == b'*') && is_literal pattern

module _ {S : Type 0} where
  -- The first middleware is the outermost.
  abbrev pub wrap : List (Middleware S) → Handler S → Handler S
  wrap [] h = h
  wrap (m ∷ ms) h = m (wrap ms h)

  abbrev pub use_all : (chi : Chi S) → List (Middleware S) → chi.Mux → chi.Mux
  use_all chi [] mux = mux
  use_all chi (m ∷ ms) mux = use_all chi ms (chi.use_middleware m mux)

pub dispatch_fits :
    (path : GoString) (r : Request)
    → r.method ≡ str "POST"
    → r.path ≡ path
    → bytes_equal r.method (str "POST") && bytes_equal r.path path ≡ true
dispatch_fits path r post here =
    rw ((bytes_equal_iff r.method (str "POST")).1 post, (bytes_equal_iff r.path path).1 here)

pub dispatch_misses :
    (path : GoString) (r : Request)
    → (r.method ≢ str "POST") ⊎ (r.path ≢ path)
    → bytes_equal r.method (str "POST") && bytes_equal r.path path ≡ false
dispatch_misses path r other =
    let post = bytes_equal_iff r.method (str "POST") in
    let here = bytes_equal_iff r.path path in ground arith

module _ {S : Type 0} (chi : Chi S) where
  -- The handler behind the middlewares: the one route, or the refusal
  abbrev pub dispatch : GoString → Handler S → Handler S
  dispatch path h r =
      if bytes_equal r.method (str "POST") && bytes_equal r.path path then h r else chi.refuse r

  -- What chi documents: the middlewares run in the order in which they were given, around the route
  -- that fits the request as they hand it on or around the refusal, and a refusal changes nothing.
  pub record ChiLaws : Type 0 where
    pub served :
        (ms : List (Middleware S)) (path : GoString) (h : Handler S) (r : Request) (s : S)
        → is_literal path ≡ true
        → chi.serve_http (chi.post path h (use_all chi ms chi.new_router)) r s
          ≡ wrap ms (dispatch path h) r s
    pub refuse_keeps : (r : Request) (s : S) → (chi.refuse r s).1 ≡ s

-- `http.Server`, the timeouts in nanoseconds
pub record HttpServer (S : Type 0) : Type 0 where
  pub addr : GoString
  pub write_timeout : ℤ
  pub read_timeout : ℤ
  pub idle_timeout : ℤ
  pub handler : Handler S

-- `ListenAndServe`, which returns only with an error, and `Shutdown`.
pub record Listening (S : Type 0) : Type 0 where
  pub listen_and_serve : HttpServer S → Call S (Unit {0})
  pub shutdown : HttpServer S → Call S (Unit {0})

-- ===== src/SignerService/Client/Network.antt =====
-- A transport that brings the client's request to one server.
use covenant_signer.Prelude.{
  ◌≡◌, refl, Option, none, some, [], ◌∷◌, ◌++◌, ◌==◌, ◌&&◌, if◌then◌else◌, bytes_equal, arith,
  length,
}
use covenant_signer.Prelude.Int.{pos}
use covenant_signer.Go.Text.{GoString, Bytes, str}
use covenant_signer.Go.Outcome.{Outcome, ok, err, panicked, message, Reply, answer, failure}
use covenant_signer.Go.Exec.{Exec}
use covenant_signer.Observability.Tracing.{background}
use covenant_signer.SignerService.Http.{Request, Response, http_error}
use covenant_signer.SignerService.Client.{Transport}

-- What a URL asks for at the server with this base URL
unfoldable pub path_at : GoString → GoString → Option GoString
path_at [] url = some url
path_at (c ∷ base) [] = none
path_at (c ∷ base) (d ∷ url) = if c == d then path_at base url else none

pub path_at-append : (base path : GoString) → path_at base (base ++ path) ≡ some path
unfolding path_at
path_at-append [] path = refl
path_at-append (c ∷ base) path = ground (arith, path_at-append base path)

-- The request that arrives at a path for a body that was sent, and what arrives of the response.
abbrev pub posted_to : GoString → Bytes → Request
posted_to path b = record {
  method = str "POST";
  path = path;
  context = background;
  content_length = pos (length b);
  body = record { content = b; limit = none };
}

abbrev pub posted : Bytes → Request
posted = posted_to (str "/v1/sign-unbonding-tx")

abbrev pub request_to : Option GoString → Bytes → Reply Request
request_to none body = failure (str "no such host")
request_to (some path) body = answer (posted_to path body)

abbrev pub arrives : {S : Type 0} → Outcome Response × S → Reply Response × S
arrives (ok res, s) = (answer res, s)
arrives (err e, s) = (failure (message e), s)
arrives (panicked t, s) = (failure (str "EOF"), s)

-- A transport to one server, which is reached under a base URL and hands what is posted to a path
-- there to a handler.
abbrev pub over : {S : Type 0} → GoString → (Request → Exec S Response) → Transport S
over base handler = record {
  HttpRequest = Request;
  new_request = λ url body. request_to (path_at base url) body;
  do_request = λ request s. arrives (handler request s);
}

abbrev pub at_route : {S : Type 0} → (Request → Exec S Response) → Request → Exec S Response
at_route handler r s =
    if bytes_equal r.method (str "POST") && bytes_equal r.path (str "/v1/sign-unbonding-tx")
    then handler r s
    else (ok (http_error (str "404 page not found") 404), s)

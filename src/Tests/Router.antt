-- ===== src/Tests/Router.antt =====
-- A router and instruments over any state, for the runs.
use covenant_signer.Prelude.{
  ◌≡◌, refl, ap, sym, ◌∙◌, List, [], ◌∷◌, ◌++◌, bytes_equal, if◌then◌else◌, ◌&&◌,
}
use covenant_signer.Prelude.Int.{pos}
use mathlib.Core.List.{append-nil, append_assoc}
use covenant_signer.Go.Text.{GoString, str}
use covenant_signer.Go.Outcome.{ok}
use covenant_signer.SignerService.Http.{http_error}
use covenant_signer.SignerService.Middlewares.{Handler, Instruments}
use covenant_signer.SignerService.Router.{Chi, ChiLaws, Middleware, wrap, use_all}
use covenant_signer.SignerService.Server.Logs.{IsUnseen}

module _ (S : Type 0) where
  -- A router is its middlewares and at most one route.
  abbrev refuse : Handler S
  refuse r s = (ok (http_error (str "404 page not found") 404), s)

  abbrev fit : GoString → Handler S → Handler S
  fit path h r =
      if bytes_equal r.method (str "POST") && bytes_equal r.path path then h r else refuse r

  abbrev pub router : Chi S
  router = record {
    Mux = List (Middleware S) × Handler S;
    new_router = ([], refuse);
    use_middleware = λ m mux. (mux.0 ++ m ∷ [], mux.1);
    post = λ path h mux. (mux.0, fit path h);
    serve_http = λ mux. wrap mux.0 mux.1;
    refuse = refuse;
  }

  use_all-append :
      (ms ns : List (Middleware S)) (h : Handler S) → use_all router ms (ns, h) ≡ (ns ++ ms, h)
  use_all-append [] ns h = ap (λ ms. (ms, h)) (sym (append-nil ns))
  use_all-append (m ∷ ms) ns h =
      use_all-append ms (ns ++ m ∷ []) h ∙ ap (λ l. (l, h)) (append_assoc ns (m ∷ []) ms)

  pub router_laws : ChiLaws router
  router_laws = record {
    served = λ ms path h r s literal.
        ap (λ mux. wrap mux.0 (fit path h) r s) (use_all-append ms [] refuse);
    refuse_keeps = λ r s. refl;
  }

  -- Nothing is written, the UUIDs are empty and the clock stands.
  abbrev pub still : Instruments S
  still = record {
    write_line = λ line s. s;
    new_uuid = λ s. ([], s);
    start_clock = λ s. (pos 0, s);
    milliseconds_since = λ start s. (pos 0, s);
  }

  pub still_unseen : {V : Type 0} (view : S → V) → IsUnseen still view
  still_unseen view = record {
    write_line = λ line s. refl;
    new_uuid = λ s. refl;
    start_clock = λ s. refl;
    milliseconds_since = λ start s. refl;
  }

-- ===== src/Server/Tests.antt =====
-- The theorems on the server at a registry of one build.
use bazel_broker.Common.{◌≡◌, ◌⊎◌, refl, false, none, some, [], ◌∷◌, lit, pos}
use bazel_broker.Build.{running, no_source}
use bazel_broker.Registry.{Registry, new_registry, blank_build}
use bazel_broker.Server.{
  one_build, RegisterRequest, DeregisterRequest, HttpRequest, write_error, handle_register,
  handle_deregister, handle_deregister_path, handle_get_build, default_501, new_server, Server,
  serve_http,
}
use bazel_broker.Server.Laws.{
  IsInvalid, Carries, serve_http_guards, register_then_get, deregister_then_get,
}

abbrev server : Server (Unit {0})
server = new_server (lit "secret") (λ s. s) default_501

abbrev registry : Registry
registry = record (new_registry false none) {
  builds = (lit "b1", record (blank_build (lit "b1") 5) { state = running }) ∷ [];
}

abbrev request : HttpRequest
request = record {
  route = one_build (lit "b1");
  authorization = lit "Bearer wrong";
  register_body = none;
  deregister_body = none;
  exit_code = none;
}

serve_http_guards_example :
    Carries server.trim_space server.token (lit "Bearer wrong")
    ⊎ (serve_http server request 9 (registry, tt)
        ≡ (write_error 401 (lit "unauthorized"), (registry, tt)))
serve_http_guards_example = serve_http_guards server request 9 (registry, tt) refl

abbrev body : RegisterRequest
body = record {
  invocation_id = lit "b2";
  worktree = lit "/w";
  targets = [];
  pid = pos 3;
  source = no_source;
}

register_then_get_example :
    ((req : RegisterRequest) × (some body ≡ some req)
      × ((handle_register registry (some body) 9).0.code ≡ 200)
      × (handle_get_build (handle_register registry (some body) 9).1 req.invocation_id 9
          ≡ (handle_register registry (some body) 9).0))
    ⊎ (IsInvalid (some body)
        × (handle_register registry (some body) 9
            ≡ (write_error 400 (lit "bad_request"), registry)))
register_then_get_example = register_then_get registry (some body) 9

abbrev last : DeregisterRequest
last = record { invocation_id = lit "b1"; exit_code = pos 1 }

deregister_then_get_example :
    (handle_get_build (handle_deregister registry (some last) 9).1 (lit "b1") 9
      ≡ (handle_deregister registry (some last) 9).0)
    × (handle_get_build (handle_deregister_path registry (lit "b1") none 9).1 (lit "b1") 9
        ≡ (handle_deregister_path registry (lit "b1") none 9).0)
deregister_then_get_example = deregister_then_get registry last none 9 refl

-- ===== src/Gateway/Door/Tests.antt =====
-- apps/gateway/src/server.ts: deliveries without the token at a gateway that requires it.
use qev_platform.Base.{◌≡◌, ◌⊎◌, refl, true, none, some, [], includes, Collision}
use qev_platform.Shared.Hash.{mixed, timing_safe_equal_hex}
use qev_platform.Runtime.CaseLog.{opened}
use qev_platform.Gateway.Sealing.Parts.{Gateway}
use qev_platform.Gateway.Samples.{empty}
use qev_platform.Gateway.Headers.{
  parse_auth, parse_signature, is_bad_path, webhook_segment, is_signed_webhook, ids_ok,
}
use qev_platform.Gateway.Door.{
  answered, passed, routed_path, is_authenticated, without_token, front_door, may_pass, read_body,
  request_signature,
}
use qev_platform.Gateway.Door.Serve.{
  deliver_signed, after_body, receive_webhook, route, through_door, serve,
}
use qev_platform.Gateway.Door.Guarded.{IsGuarded, serve-IsGuarded}
use qev_platform.Gateway.Door.Samples.{server, request}

abbrev gateway : Gateway
gateway = record {
  store = empty;
  queue = record {
    disk = record {
      pending_dir = [];
      processing_dir = [];
      done_dir = [];
      dead_dir = [];
      index = none;
    };
    idempo = [];
    ready = true;
  };
  log = opened none none;
}

serve-IsGuarded_example :
    IsGuarded server
      (request "sha256=AB01")
      gateway
      (serve server "evt" (request "sha256=AB01") gateway)
    ⊎ Collision (λ s. s)
unfolding parse_auth
serve-IsGuarded_example =
    serve-IsGuarded server "evt" (request "sha256=AB01") gateway refl (λ e. absurd cc)

wrong_signature : serve server "evt" (request "sha256=ab02") gateway ≡ (answered 401, gateway)
unfolding serve through_door route receive_webhook after_body deliver_signed request_signature
    read_body ids_ok front_door routed_path is_authenticated without_token is_signed_webhook
    webhook_segment is_bad_path parse_auth parse_signature timing_safe_equal_hex mixed includes
wrong_signature = refl

-- With the token, and at a path of another route.
with_token :
    serve server "evt"
      (record (request "") {
        method = "GET";
        authorization = some "Bearer token";
        pathname = "/platform/v1/packages";
      })
      gateway
    ≡ (passed "/v1/packages", gateway)
unfolding serve through_door route may_pass front_door routed_path is_authenticated is_bad_path
    parse_auth timing_safe_equal_hex mixed includes
with_token = refl

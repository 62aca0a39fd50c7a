-- ===== src/Gateway/Door/Samples.antt =====
-- apps/gateway/src/server.ts: a server that requires the token, and a request without it.
use qev_platform.Base.{String, true, none, some}
use qev_platform.Json.{obj, end}
use qev_platform.Gateway.Ingest.{Process}
use qev_platform.Gateway.Door.{Request, Server}
use qev_platform.Connect.Samples.{body}

abbrev process : Process
process = record {
  platform = record {
    sha256 = λ s. s;
    encrypt = λ _ _. "v";
    certificate = λ _ _. "c";
    new_id = "pkg_2";
    now = "2026-07-02";
    tenant_id = "t1";
  };
  settings = record { mode = some "shadow"; auto_seal = true; supplemental_packages = true };
  package_passphrase = "secret";
  job_id = "job_1";
  lower = λ s. s;
  generated = λ _. "g";
}

abbrev pub server : Server
server = record {
  process = process;
  require_auth = true;
  path_prefix = "/platform";
  ingest_token = "token";
  webhook_secret = "secret";
  decode_uri = λ s. some s;
  hmac = λ _ _. "ab01";
  parse = λ _. some (obj end);
  body_of = λ _. some body;
  untyped = λ _ g. (500, g);
}

abbrev pub request : (signature : String) → Request
request signature = record {
  method = "POST";
  path = "/platform/v1/webhooks/github";
  pathname = "/platform/v1/webhooks/github";
  authorization = none;
  x_qev_signature = some signature;
  x_hub_signature_256 = none;
  raw_body = "{}";
  body_bytes = 2;
  declared_bytes = 2;
}

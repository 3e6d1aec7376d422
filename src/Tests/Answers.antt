-- ===== src/Tests/Answers.antt =====
-- The handlers and the middleware of auth/ on the server of Accounts.
use platforma.Base.{String, true, false, Option, none, some}
use platforma.Base.Text.{Text, codes}
use platforma.Auth.Http.{Cookie, Request}
use platforma.Tests.Accounts.{Store, some_uuid, password}

abbrev pub request : String → Option (Text × Text) → Request Store
request method fields = record {
  method = method;
  cookies = λ name. some (codes "s");
  fields = fields;
  user = none;
  user_id = none;
  add_attrs = none;
}

abbrev pub alice_posts : Request Store
alice_posts = request "POST" (some (codes "alice", password))

abbrev pub cookie : Cookie
cookie = record {
  name = codes "session";
  value = some_uuid;
  expired = false;
  http_only = true;
  same_site_lax = true;
}

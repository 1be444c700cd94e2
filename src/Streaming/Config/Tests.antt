-- ===== src/Streaming/Config/Tests.antt =====
-- A database URL whose password has a colon.
use mastodon.Prelude.{codes, ◌≡◌, refl, false, none, some, any, ◌==◌}
use mastodon.Streaming.Config.{ParsedUrl, db_url_to_config}
use mastodon.Streaming.Config.Credentials.{until, db_url_to_config-credentials}

abbrev params : ParsedUrl
params = record {
  auth = some (codes "me:a:b");
  hostname = some (codes "localhost");
  port = none;
  pathname = some (codes "/mastodon");
  query = some (codes "ssl=true");
}

db_url_to_config-credentials_example :
    ((db_url_to_config (some params)).user ≡ some (codes "me"))
    × ((db_url_to_config (some params)).password ≡ some (until 58 (codes "a:b")))
    × (any (λ d. d == 58) (codes "a:b") ≡ false → until 58 (codes "a:b") ≡ codes "a:b")
db_url_to_config-credentials_example =
    db_url_to_config-credentials params (codes "me") (codes "a:b") refl refl

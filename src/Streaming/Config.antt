-- ===== src/Streaming/Config.antt =====
-- streaming/index.js: how the server is configured from its environment. The parts of a URL are what
-- the `url` module of Node.js gives.
pub mod Credentials
mod Tests
use mastodon.Prelude.{
  ℕ, ◌-◌, Text, codes, text_eq, Bool, ◌||◌, Option, none, some, List, [], ◌∷◌, max, drop, truthy,
  is_empty, ◌==◌, if◌then◌else◌, after,
}
use mastodon.ComposeText.{starts_with}

pub record ParsedUrl : Type 0 where
  pub auth : Option Text
  pub hostname : Option Text
  pub port : Option Text
  pub pathname : Option Text
  pub query : Option Text

pub record DbConfig : Type 0 where
  pub user : Option Text
  pub password : Option Text
  pub host : Option Text
  pub port : Option Text
  pub database : Option Text
  pub ssl : Option Bool

-- `text.split(c)`.
unfoldable pub split_on : ℕ → Text → List Text
split_on c [] = [] ∷ []
split_on c (d ∷ s) =
    let parts = split_on c s in
    if d == c
    then [] ∷ parts
    else elim parts [ [] ↦ (d ∷ []) ∷ [] | part ∷ rest ↦ (d ∷ part) ∷ rest ]

abbrev pub first_part : List Text → Option Text
first_part [] = none
first_part (part ∷ parts) = some part

abbrev pub second_part : List Text → Option Text
second_part [] = none
second_part (part ∷ parts) = first_part parts

-- The parts of a text, none where the text is missing or empty.
abbrev pub parts_of : ℕ → Option Text → List Text
parts_of c none = []
parts_of c (some s) = if is_empty s then [] else split_on c s

abbrev pub given : Option Text → Option Text
given none = none
given (some s) = if is_empty s then none else some s

-- The URL is parsed without its query, which stays a text: a text has no key `ssl`.
abbrev pub ssl_of : Option Text → Option Bool
ssl_of query = none

abbrev pub empty_config : DbConfig
empty_config = record {
  user = none;
  password = none;
  host = none;
  port = none;
  database = none;
  ssl = none;
}

unfoldable pub db_url_to_config : Option ParsedUrl → DbConfig
unfolding split_on
db_url_to_config none = empty_config
db_url_to_config (some params) = record {
  user = first_part (parts_of 58 params.auth);
  password = second_part (parts_of 58 params.auth);
  host = given params.hostname;
  port = given params.port;
  database = second_part (parts_of 47 params.pathname);
  ssl = ssl_of params.query;
}

-- What `redis.createClient` is called with, besides the configuration that is there already.
pub data RedisTarget : Type 0 where
  by_config : RedisTarget
  by_socket by_url : Text → RedisTarget

unfoldable pub redis_url_to_client : Option Text → RedisTarget
redis_url_to_client none = by_config
redis_url_to_client (some redis_url) =
    if is_empty redis_url
    then by_config
    else if starts_with (codes "unix://") redis_url
    then by_socket (drop 7 redis_url)
    else by_url redis_url

-- `configured` is the number in STREAMING_CLUSTER_NUM, 0 where there is none.
unfoldable pub num_workers : ℕ → Bool → ℕ → ℕ
num_workers configured is_development cpus =
    if configured == 0 then (if is_development then 1 else max (cpus - 1) 1) else configured

-- ===== src/Streaming/Subs.antt =====
-- streaming/index.js: the listeners of each Redis channel (`subs`), and what a worker asks of Redis.
-- A listener is a number: each call of `streamFrom` makes a new one.
pub mod Redis
pub mod Delivery
mod Tests
use mastodon.Prelude.{
  ℕ, suc, Text, text_eq, Bool, true, false, Option, none, some, List, [], ◌∷◌, ◌++◌, ◌==◌, is_empty,
  filter_not, if◌then◌else◌, Map, get, set, get_or,
}

-- A call of `redisSubscribeClient`.
pub data Call : Type 0 where
  subscribes unsubscribes : Text → Call

pub record Subs : Type 0 where
  pub subs : Map (List ℕ)
  -- The calls of the Redis client, latest first.
  pub calls : List Call

abbrev pub initial : Subs
initial = record { subs = []; calls = [] }

unfoldable pub subscribe : Subs → Text → ℕ → Subs
subscribe s channel callback =
    let listeners = get_or [] channel s.subs in
    record {
      subs = set channel (listeners ++ callback ∷ []) s.subs;
      calls = if is_empty listeners then subscribes channel ∷ s.calls else s.calls;
    }

-- `none` is the exception that `filter` of a missing entry throws.
unfoldable pub unsubscribe : Subs → Text → ℕ → Option Subs
unsubscribe s channel callback = elim (get channel s.subs) [
  | none ↦ none
  | some listeners ↦
      let left = filter_not (λ item. item == callback) listeners in
      some (record {
        subs = set channel left s.subs;
        calls = if is_empty left then unsubscribes channel ∷ s.calls else s.calls;
      })
]

-- The callbacks that a message on the channel is handed to, in order.
unfoldable pub on_message : Subs → Text → List ℕ
on_message s channel = elim (get channel s.subs) [ none ↦ [] | some callbacks ↦ callbacks ]

-- What happens to the listeners: a connection opens, or its close or error handler runs.
pub data Event : Type 0 where
  opens closes : Text → ℕ → Event

unfoldable pub step : Subs → Event → Option Subs
unfolding subscribe unsubscribe
step s (opens channel callback) = some (subscribe s channel callback)
step s (closes channel callback) = unsubscribe s channel callback

unfoldable pub run : Subs → List Event → Option Subs
unfolding step
run s [] = some s
run s (e ∷ events) = elim (step s e) [ none ↦ none | some s' ↦ run s' events ]

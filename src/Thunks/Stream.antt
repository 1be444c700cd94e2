-- ===== src/Thunks/Stream.antt =====
-- app/javascript/mastodon/stream.js: the connection to the streaming server, and polling while there
-- is none. The web socket, its reconnections and the timers are the browser's: they are events.
pub mod Polling
mod Tests
use mastodon.Prelude.{
  ℕ, ◌+◌, ◌-◌, Text, codes, Bool, true, false, ◌==◌, ltb, Option, none, some, List, [], ◌∷◌, ◌++◌,
  any, if◌then◌else◌, after,
}

-- The `polling` of the closure, the timers that are set, the id of the next one, and how many
-- refreshes are under way whose callback sets the next timer.
pub record Stream : Type 0 where
  pub polling : Option ℕ
  pub timers : List ℕ
  pub next_timer : ℕ
  pub refreshing : ℕ

abbrev pub initial : Stream
initial = record { polling = none; timers = []; next_timer = 1; refreshing = 0 }

unfoldable pub clear_timeout : ℕ → List ℕ → List ℕ
clear_timeout t [] = []
clear_timeout t (u ∷ timers) =
    let rest = clear_timeout t timers in if u == t then timers else u ∷ rest

-- `polling = setTimeout(...)`: a timer that `polling` named before stays set.
abbrev pub set_polling : Stream → Stream
set_polling s = record s {
  polling = some s.next_timer;
  timers = s.next_timer ∷ s.timers;
  next_timer = s.next_timer + 1;
}

unfoldable pub setup_polling : Stream → Stream
setup_polling s = record s { refreshing = s.refreshing + 1 }

unfoldable pub clear_polling : Stream → Stream
unfolding clear_timeout
clear_polling s = elim s.polling [
  | none ↦ s
  | some t ↦ record s { polling = none; timers = clear_timeout t s.timers }
]

-- The callback that a refresh is given.
unfoldable pub refreshed : Stream → Stream
refreshed s = set_polling (record s { refreshing = s.refreshing - 1 })

-- The web socket opens, closes and opens again, a timer fires, a refresh is done, the column that
-- uses the stream goes away.
pub data Event : Type 0 where
  connected disconnected reconnected done disconnect : Event
  fired : ℕ → Event

-- `polls` is whether there is a `pollingRefresh`. On `reconnected` it also refreshes once, with
-- nothing to follow. A timer fires only while it is set, and a callback comes only from a refresh.
unfoldable pub step : Bool → Stream → Event → Stream
unfolding setup_polling clear_polling refreshed clear_timeout
step polls s connected = if polls then clear_polling s else s
step polls s disconnected = if polls then set_polling s else s
step polls s reconnected = if polls then clear_polling s else s
step polls s disconnect = clear_polling s
step polls s (fired t) =
    if any (λ u. u == t) s.timers
    then setup_polling (record s { timers = clear_timeout t s.timers })
    else s
step polls s done = if ltb 0 s.refreshing then refreshed s else s

unfoldable pub steps : Bool → Stream → List Event → Stream
unfolding step
steps polls s [] = s
steps polls s (e ∷ events) = steps polls (step polls s e) events

-- `stream=${stream}` and, with a token, `&access_token=${accessToken}`.
abbrev pub query : Text → Option Text → Text
query stream none = codes "stream=" ++ stream
query stream (some token) = codes "stream=" ++ (stream ++ (codes "&access_token=" ++ token))

unfoldable pub get_stream : Text → Option Text → Text → Text
get_stream base token stream = base ++ (codes "/api/v1/streaming/?" ++ query stream token)

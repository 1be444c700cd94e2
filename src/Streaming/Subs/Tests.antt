-- ===== src/Streaming/Subs/Tests.antt =====
-- The listeners of the streaming server in a short history.
use mastodon.Prelude.{
  codes, text_eq, ◌≡◌, refl, false, not, some, List, [], ◌∷◌, is_empty, get, set, get_or,
}
use mastodon.Streaming.Subs.{Subs, subscribes, Event, opens, closes, initial, on_message, run}
use mastodon.Streaming.Subs.Redis.{is_subscribed, run-initial-IsInSync}
use mastodon.Streaming.Subs.Delivery.{listens, is_open, run-on_message, run-total}

-- Two clients of one channel, of which the first closes, with an error after it.
abbrev history : List Event
history =
    opens (codes "timeline:1") 1
    ∷ opens (codes "timeline:1") 2
    ∷ closes (codes "timeline:1") 1
    ∷ closes (codes "timeline:1") 1
    ∷ []

abbrev left : Subs
left = record {
  subs = (codes "timeline:1", 2 ∷ []) ∷ [];
  calls = subscribes (codes "timeline:1") ∷ [];
}

run-history : run initial history ≡ some left
unfolding run get set text_eq
run-history = refl

run-initial-IsInSync_example :
    is_subscribed left.calls (codes "timeline:1")
    ≡ not (is_empty (get_or [] (codes "timeline:1") left.subs))
run-initial-IsInSync_example = run-initial-IsInSync history run-history (codes "timeline:1")

run-on_message_example :
    listens 1 (on_message left (codes "timeline:1")) ≡ is_open (codes "timeline:1") 1 false history
run-on_message_example = run-on_message history (codes "timeline:1") 1 run-history

run-total_example : (s : Subs) × (run initial history ≡ some s)
unfolding text_eq
run-total_example = run-total history (refl, (refl, tt))

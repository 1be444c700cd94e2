-- ===== src/Thunks/Stream/Tests.antt =====
-- The polling of the streaming client in concrete runs.
use mastodon.Prelude.{◌+◌, suc, ◌≤◌, ◌≡◌, refl, true, List, [], ◌∷◌}
use mastodon.Thunks.Stream.{
  Stream, initial, Event, connected, disconnected, reconnected, done, disconnect, fired, step,
  steps, setup_polling, clear_timeout,
}
use mastodon.Thunks.Stream.Polling.{
  loops, disconnects, rounds, steps-loops, rounds-loops, steps-raced,
}

-- The connection is lost, a timer fires, the connection is lost again, and the refresh is done.
abbrev losses : List Event
losses = disconnected ∷ fired 1 ∷ disconnected ∷ done ∷ []

steps-loops_example : loops (steps true initial losses) ≡ loops initial + disconnects losses
steps-loops_example = steps-loops initial losses (refl, (refl, (refl, (refl, tt))))

rounds-loops_example :
    let s = rounds 2 (step true initial disconnected) in
    (loops s ≡ 1)
    × (loops (step true s connected) ≡ 0)
    × (loops (step true s reconnected) ≡ 0)
    × (loops (step true s disconnect) ≡ 0)
rounds-loops_example = rounds-loops 2

-- A timer has fired, and its refresh is under way.
abbrev refreshing : Stream
refreshing = steps true initial (disconnected ∷ fired 1 ∷ [])

-- The refresh is done, and the timer that it sets fires.
abbrev later : List Event
later = done ∷ fired 2 ∷ done ∷ []

steps-raced_example :
    let left = loops (steps true refreshing (connected ∷ later)) in
    (refreshing.refreshing + disconnects later ≤ left)
    × (left ≤ loops refreshing + disconnects later)
    × (loops refreshing + disconnects later ≤ suc left)
steps-raced_example = steps-raced refreshing connected later refl (refl, (refl, (refl, tt)))

one_under_way : refreshing.refreshing ≡ 1
unfolding steps step setup_polling clear_timeout
one_under_way = refl

-- ===== src/Streaming/Liveness/Tests.antt =====
-- The pings of the streaming server with two clients.
use mastodon.Prelude.{ℕ, ◌≡◌, refl, true, false, ◌||◌, List, [], ◌∷◌}
use mastodon.Streaming.Liveness.{Client, round, after_round}
use mastodon.Streaming.Liveness.Laws.{is_connected, is_terminated, cut, round-round}

abbrev clients : List Client
clients = record { socket = 1; is_alive = false } ∷ record { socket = 2; is_alive = true } ∷ []

round-round_example :
    (after_round cut (after_round cut clients) ≡ [])
    × ((socket : ℕ)
        → (is_terminated socket (round clients).1
            || is_terminated socket (round (after_round cut clients)).1)
          ≡ is_connected socket clients)
round-round_example = round-round cut (λ _ _. refl) clients

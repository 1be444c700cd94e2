-- ===== src/Streaming/Liveness.antt =====
-- streaming/index.js: the pings that find WebSocket clients which are gone.
pub mod Laws
mod Tests
use mastodon.Prelude.{ℕ, Bool, true, false, List, [], ◌∷◌, ◌==◌, if◌then◌else◌}

-- An open connection: a number for the socket, and `isAlive`.
pub record Client : Type 0 where
  pub socket : ℕ
  pub is_alive : Bool

-- What the server does to a socket.
pub data Effect : Type 0 where
  terminate ping : ℕ → Effect

-- One round of the interval over the clients: `isAlive` afterwards, and what is done.
unfoldable pub round : List Client → List Client × List Effect
round [] = ([], [])
round (c ∷ clients) =
    let (rest, effects) = round clients in
    if c.is_alive
    then (record c { is_alive = false } ∷ rest, ping c.socket ∷ effects)
    else (c ∷ rest, terminate c.socket ∷ effects)

-- The clients that are there after a round. Which of them the library of the web sockets, ws, still
-- has after what was done to the sockets is for it to say (`left`).
unfoldable pub after_round : (List Effect → List Client → List Client) → List Client → List Client
unfolding round
after_round left clients = left (round clients).1 (round clients).0

-- The handler of `pong`.
unfoldable pub pong : ℕ → List Client → List Client
pong socket [] = []
pong socket (c ∷ clients) =
    (if c.socket == socket then record c { is_alive = true } else c) ∷ pong socket clients

-- The handler of `connection`.
unfoldable pub connect : ℕ → List Client → List Client
connect socket clients = record { socket = socket; is_alive = true } ∷ clients

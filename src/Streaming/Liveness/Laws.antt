-- ===== src/Streaming/Liveness/Laws.antt =====
-- Which clients a round keeps and which it cuts off.
use mathlib.Core.Path.{subst}
use mastodon.Prelude.{
  ℕ, ◌≡◌, ◌∙◌, refl, sym, ap, Bool, true, false, ◌||◌, ◌&&◌, not, List, [], ◌∷◌, ◌==◌, any, All,
  All-filter_not, filter_not, Bool-cases, inl, inr, arith,
}
use mastodon.Streaming.Liveness.{Client, Effect, terminate, ping, round, after_round, pong}

-- Whether the socket is among the clients.
abbrev pub is_connected : ℕ → List Client → Bool
is_connected socket = any (λ (c : Client). c.socket == socket)

-- Whether a socket is terminated.
abbrev pub is_terminated : ℕ → List Effect → Bool
is_terminated socket [] = false
is_terminated socket (terminate s ∷ effects) = s == socket || is_terminated socket effects
is_terminated socket (ping s ∷ effects) = is_terminated socket effects

-- A round terminates the sockets of the clients that have not answered, and no other.
is_terminated-round :
    (socket : ℕ) (clients : List Client)
    → is_terminated socket (round clients).1
      ≡ any (λ (c : Client). not c.is_alive && c.socket == socket) clients
unfolding round
is_terminated-round socket [] = refl
is_terminated-round socket (c ∷ clients) = elim (Bool-cases c.is_alive) [
  | inl e ↦ rw e (is_terminated-round socket clients)
  | inr e ↦ rw e (ap (c.socket == socket ||◌) (is_terminated-round socket clients))
]

is_connected-round :
    (socket : ℕ) (clients : List Client)
    → is_connected socket (round clients).0 ≡ is_connected socket clients
unfolding round
is_connected-round socket [] = refl
is_connected-round socket (c ∷ clients) = elim (Bool-cases c.is_alive) [
  | inl e ↦ rw e (ap (c.socket == socket ||◌) (is_connected-round socket clients))
  | inr e ↦ rw e (ap (c.socket == socket ||◌) (is_connected-round socket clients))
]

-- The clients whose sockets were not terminated.
abbrev pub cut : List Effect → List Client → List Client
cut effects = filter_not (λ (c : Client). is_terminated c.socket effects)

is_connected-cut :
    (socket : ℕ) (effects : List Effect) (clients : List Client)
    → is_connected socket (cut effects clients)
      ≡ (not (is_terminated socket effects) && is_connected socket clients)
is_connected-cut socket effects [] = ground arith
is_connected-cut socket effects (c ∷ clients) = elim (Bool-cases (c.socket == socket)) [
  | inl e ↦
      let same : c.socket ≡ socket = ground (arith, e) in
      ground
        (arith, is_connected-cut socket effects clients, ap (λ s. is_terminated s effects) same, e)
  | inr e ↦ ground (arith, is_connected-cut socket effects clients, e)
]

round-silent : (clients : List Client) → All (λ (c : Client). c.is_alive ≡ false) (round clients).0
unfolding round
round-silent [] = tt
round-silent (c ∷ clients) = elim (Bool-cases c.is_alive) [
  | inl e ↦ rw e (refl, round-silent clients)
  | inr e ↦ rw e (refl, round-silent clients)
]

-- A round over clients that have not answered terminates each of them.
is_terminated-round_silent :
    (socket : ℕ) (clients : List Client)
    → All (λ (c : Client). c.is_alive ≡ false) clients
    → is_terminated socket (round clients).1 ≡ is_connected socket clients
unfolding round
is_terminated-round_silent socket [] h = refl
is_terminated-round_silent socket (c ∷ clients) h =
    rw (h.0) (ap (c.socket == socket ||◌) (is_terminated-round_silent socket clients h.1))

nobody :
    (clients : List Client) → ((socket : ℕ) → is_connected socket clients ≡ false) → clients ≡ []
nobody [] h = refl
nobody (c ∷ clients) h = absurd (ground (arith, h c.socket))

silent_part :
    (socket : ℕ) (clients : List Client)
    → any (λ (c : Client). not c.is_alive && c.socket == socket) clients ≡ true
    → is_connected socket clients ≡ true
silent_part socket [] h = h
silent_part socket (c ∷ clients) h = ground (arith, h, silent_part socket clients)

alive_again :
    (socket : ℕ) (clients : List Client)
    → any (λ (c : Client). not c.is_alive && c.socket == socket) (pong socket clients) ≡ false
unfolding pong
alive_again socket [] = refl
alive_again socket (c ∷ clients) = elim (Bool-cases (c.socket == socket)) [
  | inl e ↦ ground (arith, alive_again socket clients, e)
  | inr e ↦ ground (arith, alive_again socket clients, e)
]

is_connected-pong :
    (socket : ℕ) (clients : List Client)
    → is_connected socket (pong socket clients) ≡ is_connected socket clients
unfolding pong
is_connected-pong socket [] = refl
is_connected-pong socket (c ∷ clients) = elim (Bool-cases (c.socket == socket)) [
  | inl e ↦ ground (arith, is_connected-pong socket clients, e)
  | inr e ↦ ground (arith, is_connected-pong socket clients, e)
]

-- As ws documents it, a socket that was terminated is among the clients no more, and every other
-- client is left as it was.
module _ (left : List Effect → List Client → List Client)
    (cuts : (effects : List Effect) (clients : List Client)
      → left effects clients ≡ cut effects clients) where
  is_connected-after_round :
      (socket : ℕ) (clients : List Client)
      → is_connected socket (after_round left clients)
        ≡ (not (is_terminated socket (round clients).1) && is_connected socket clients)
  unfolding after_round
  is_connected-after_round socket clients =
      ap (is_connected socket) (cuts (round clients).1 (round clients).0)
      ∙ is_connected-cut socket (round clients).1 (round clients).0
      ∙ ap (not (is_terminated socket (round clients).1) &&◌) (is_connected-round socket clients)

  after_round-silent :
      (clients : List Client) → All (λ (c : Client). c.is_alive ≡ false) (after_round left clients)
  unfolding after_round
  after_round-silent clients =
      subst (All (λ (c : Client). c.is_alive ≡ false))
        (sym (cuts (round clients).1 (round clients).0))
        (All-filter_not _ _ (round clients).0 (round-silent clients))

  -- Where the clients after a round are those whose sockets were not terminated: two rounds with no
  -- answer between them leave no client that was there; each of these sockets, and no other one, is
  -- terminated in one of the two.
  pub round-round :
      (clients : List Client)
      → (after_round left (after_round left clients) ≡ [])
        × ((socket : ℕ)
            → (is_terminated socket (round clients).1
                || is_terminated socket (round (after_round left clients)).1)
              ≡ is_connected socket clients)
  round-round clients = (
    nobody _ (λ socket.
        let gone =
          is_terminated-round_silent socket (after_round left clients)
            (after_round-silent clients) in
        let still = is_connected-after_round socket (after_round left clients) in
        ground (arith, gone, still)),
    λ socket.
        let gone =
          is_terminated-round_silent socket (after_round left clients)
            (after_round-silent clients) in
        let still = is_connected-after_round socket clients in
        let first = is_terminated-round socket clients in
        let part = silent_part socket clients in ground (arith, gone, still, first, part),
  )

  -- A client that answers before a round is there after it.
  is_connected-after_round-pong :
      (socket : ℕ) (clients : List Client)
      → is_connected socket (after_round left (pong socket clients)) ≡ is_connected socket clients
  is_connected-after_round-pong socket clients =
      let kept = is_connected-after_round socket (pong socket clients) in
      let gone = is_terminated-round socket (pong socket clients) in
      let alive = alive_again socket clients in
      let same = is_connected-pong socket clients in ground (arith, kept, gone, alive, same)

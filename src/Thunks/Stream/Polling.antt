-- ===== src/Thunks/Stream/Polling.antt =====
-- How many polling loops run.
use mathlib.Core.Path.{subst}
use mastodon.Prelude.{
  sym, ℕ, zero, ◌+◌, suc, ◌≤◌, Option-cases, ◌≡◌, refl, ap, Bool, true, false, ◌==◌, none, some,
  List, [], ◌∷◌, any, length, All, Bool-cases, inl, inr, arith,
}
use mastodon.Thunks.Stream.{
  Stream, initial, Event, connected, disconnected, reconnected, done, disconnect, fired, step,
  steps, clear_timeout, clear_polling, setup_polling, refreshed,
}

-- A loop waits for its timer or for its refresh.
abbrev pub loops : Stream → ℕ
loops s = length s.timers + s.refreshing

abbrev pub disconnects : List Event → ℕ
disconnects [] = 0
disconnects (disconnected ∷ events) = suc (disconnects events)
disconnects (_ ∷ events) = disconnects events

-- Nothing of what stops a loop.
abbrev pub is_offline : Event → Bool
is_offline connected = false
is_offline reconnected = false
is_offline disconnect = false
is_offline _ = true

abbrev pub IsOffline : Event → Type 0
IsOffline e = is_offline e ≡ true

length-clear_timeout :
    (t : ℕ) (timers : List ℕ)
    → any (λ u. u == t) timers ≡ true
    → suc (length (clear_timeout t timers)) ≡ length timers
unfolding clear_timeout
length-clear_timeout t [] e = ground (arith, e)
length-clear_timeout t (u ∷ timers) e = elim (Bool-cases (u == t)) [
  | inl here ↦ rw here refl
  | inr there ↦ rw there (ap suc (length-clear_timeout t timers (rw there at e)))
]

step-loops :
    (s : Stream) (e : Event) → IsOffline e → loops (step true s e) ≡ loops s + disconnects (e ∷ [])
unfolding step setup_polling refreshed
step-loops s connected h = ground (arith, h)
step-loops s reconnected h = ground (arith, h)
step-loops s disconnect h = ground (arith, h)
step-loops s disconnected h = ground arith
step-loops s done h = ground arith
step-loops s (fired t) h = elim (Bool-cases (any (λ u. u == t) s.timers)) [
  | inl e ↦ rw e (ground (arith, length-clear_timeout t s.timers e))
  | inr e ↦ rw e (ground arith)
]

disconnects-cons :
    (e : Event) (events : List Event)
    → disconnects (e ∷ events) ≡ disconnects (e ∷ []) + disconnects events
disconnects-cons connected events = ground arith
disconnects-cons disconnected events = ground arith
disconnects-cons reconnected events = ground arith
disconnects-cons done events = ground arith
disconnects-cons disconnect events = ground arith
disconnects-cons (fired t) events = ground arith

-- While the connection does not come back and the stream is not given up, whatever timers and
-- refreshes do, no polling loop ends, and each loss of the connection starts another one.
pub steps-loops :
    (s : Stream) (events : List Event)
    → All IsOffline events
    → loops (steps true s events) ≡ loops s + disconnects events
unfolding steps
steps-loops s [] h = ground arith
steps-loops s (e ∷ events) h =
    ground
      (arith, steps-loops (step true s e) events h.1, step-loops s e h.0, disconnects-cons e events)

-- One loop, which waits for the timer that `polling` names.
abbrev waiting : ℕ → ℕ → Stream
waiting t n = record { polling = some t; timers = t ∷ []; next_timer = n; refreshing = 0 }

-- A round of polling: the timer fires, and the refresh is done.
abbrev pub round : Stream → List Event
round s = elim s.polling [ none ↦ [] | some t ↦ fired t ∷ done ∷ [] ]

abbrev pub rounds : ℕ → Stream → Stream
rounds zero s = s
rounds (suc k) s = rounds k (steps true s (round s))

eq_refl : (t : ℕ) → (t == t) ≡ true
eq_refl t = ground arith

round-waiting : (t n : ℕ) → steps true (waiting t n) (round (waiting t n)) ≡ waiting n (n + 1)
unfolding steps step setup_polling refreshed clear_timeout
round-waiting t n = rw (eq_refl t) refl

stopped : (t n : ℕ) → loops (clear_polling (waiting t n)) ≡ 0
unfolding clear_polling clear_timeout
stopped t n = rw (eq_refl t) refl

rounds-waiting :
    (k t n : ℕ) → let s = rounds k (waiting t n) in (loops s ≡ 1) × (loops (clear_polling s) ≡ 0)
rounds-waiting zero t n = (refl, stopped t n)
rounds-waiting (suc k) t n =
    subst (λ s. (loops (rounds k s) ≡ 1) × (loops (clear_polling (rounds k s)) ≡ 0))
      (sym (round-waiting t n)) (rounds-waiting k n (n + 1))

-- After the connection was lost once, and after any number of rounds of polling, one loop runs, and
-- it ends if the connection comes back, either way, or the stream is given up between two rounds.
pub rounds-loops :
    (k : ℕ)
    → let s = rounds k (step true initial disconnected) in
      (loops s ≡ 1)
      × (loops (step true s connected) ≡ 0)
      × (loops (step true s reconnected) ≡ 0)
      × (loops (step true s disconnect) ≡ 0)
unfolding step
rounds-loops k =
    let (one, none_left) = rounds-waiting k 1 2 in (one, none_left, none_left, none_left)

length-clear_timeout-le :
    (t : ℕ) (timers : List ℕ)
    → (length (clear_timeout t timers) ≤ length timers)
      × (length timers ≤ suc (length (clear_timeout t timers)))
unfolding clear_timeout
length-clear_timeout-le t [] = (omega arith, omega arith)
length-clear_timeout-le t (u ∷ timers) = elim (Bool-cases (u == t)) [
  | inl here ↦ rw here (omega arith, omega arith)
  | inr there ↦
      let rest = length-clear_timeout-le t timers in
      rw there (omega (arith, rest.0), omega (arith, rest.1))
]

-- Refreshes under way are left alone, and no more than one timer is taken away.
clear_polling-loops :
    (s : Stream)
    → (s.refreshing ≤ loops (clear_polling s))
      × (loops (clear_polling s) ≤ loops s)
      × (loops s ≤ suc (loops (clear_polling s)))
unfolding clear_polling
clear_polling-loops s = elim (Option-cases s.polling) [
  | inl n ↦ rw n (omega arith, omega arith, omega arith)
  | inr (t, e) ↦
      let rest = length-clear_timeout-le t s.timers in
      rw e (omega arith, omega (arith, rest.0), omega (arith, rest.1))
]

step-clear_polling :
    (s : Stream) (e : Event) → is_offline e ≡ false → step true s e ≡ clear_polling s
unfolding step
step-clear_polling s connected h = refl
step-clear_polling s reconnected h = refl
step-clear_polling s disconnect h = refl
step-clear_polling s disconnected h = cc
step-clear_polling s done h = cc
step-clear_polling s (fired t) h = cc

-- When the connection comes back, either way, or the stream is given up, in whatever state, at most
-- one loop ends, and never one whose refresh is under way: at least as many loops as refreshes are
-- under way then go on, whatever timers and refreshes do afterwards, beside those that later losses
-- of the connection start, until one of the three happens again.
pub steps-raced :
    (s : Stream) (e : Event) (events : List Event)
    → is_offline e ≡ false
    → All IsOffline events
    → let left = loops (steps true s (e ∷ events)) in
      (s.refreshing + disconnects events ≤ left)
      × (left ≤ loops s + disconnects events)
      × (loops s + disconnects events ≤ suc left)
unfolding steps
steps-raced s e events h later =
    let (busy, fewer, one) = clear_polling-loops s in
    let cleared = step-clear_polling s e h in
    let after = steps-loops (step true s e) events later in
    let same : loops (step true s e) ≡ loops (clear_polling s) = ap loops cleared in
    (
      ground (arith, busy, after, same),
      ground (arith, fewer, after, same),
      ground (arith, one, after, same),
    )

-- ===== src/Streaming/Subs/Redis.antt =====
-- Redis is asked for the channels that have listeners.
use mathlib.Core.Path.{subst}
use mathlib.Core.Option.{some-injective}
use mastodon.Prelude.{
  ℕ, Text, text_eq, text_eq_iff, ◌≡◌, refl, Bool, true, false, not, some, List, [], ◌∷◌, ◌++◌, ◌==◌,
  is_empty, filter_not, if◌then◌else◌, Option-cases, inl, inr, get, get_or, get-set, arith,
}
use mastodon.Streaming.Subs.{
  Subs, Call, subscribes, unsubscribes, Event, opens, closes, initial, subscribe, unsubscribe, step,
  run,
}

-- Whether Redis delivers a channel: the latest call about it is a subscription.
abbrev pub is_subscribed : List Call → Text → Bool
is_subscribed [] channel = false
is_subscribed (subscribes c ∷ calls) channel =
    if text_eq c channel then true else is_subscribed calls channel
is_subscribed (unsubscribes c ∷ calls) channel =
    if text_eq c channel then false else is_subscribed calls channel

-- Redis delivers exactly the channels that have a listener.
abbrev pub IsInSync : Subs → Type 0
IsInSync s =
    (channel : Text) → is_subscribed s.calls channel ≡ not (is_empty (get_or [] channel s.subs))

is_empty-append : (xs : List ℕ) (x : ℕ) → is_empty (xs ++ x ∷ []) ≡ false
is_empty-append [] x = refl
is_empty-append (y ∷ xs) x = refl

subscribe-IsInSync :
    (s : Subs) (channel : Text) (callback : ℕ)
    → IsInSync s
    → IsInSync (subscribe s channel callback)
unfolding subscribe
subscribe-IsInSync s channel callback h c = ground (
  arith,
  h c,
  get-set channel c (get_or [] channel s.subs ++ callback ∷ []) s.subs,
  is_empty-append (get_or [] channel s.subs) callback,
  text_eq_iff channel c,
)

unsubscribe-IsInSync :
    (s s' : Subs) (channel : Text) (callback : ℕ)
    → IsInSync s
    → unsubscribe s channel callback ≡ some s'
    → IsInSync s'
unfolding unsubscribe
unsubscribe-IsInSync s s' channel callback h e c = elim (Option-cases (get channel s.subs)) [
  | inl missing ↦ ground (arith, missing)
  | inr (listeners, found) ↦ ground (
    arith,
    found,
    h c,
    get-set channel c (filter_not (λ item. item == callback) listeners) s.subs,
    text_eq_iff channel c,
  )
]

run-IsInSync :
    (events : List Event) (s : Subs) {s' : Subs} → IsInSync s → run s events ≡ some s' → IsInSync s'
unfolding run step
run-IsInSync [] s h e = subst IsInSync (some-injective s _ e) h
run-IsInSync (opens c k ∷ events) s h e =
    run-IsInSync events (subscribe s c k) (subscribe-IsInSync s c k h) e
run-IsInSync (closes c k ∷ events) s h e = elim (Option-cases (unsubscribe s c k)) [
  | inl n ↦ ground (arith, n)
  | inr (t, f) ↦ run-IsInSync events t (unsubscribe-IsInSync s t c k h f) (rw (f, run) at e)
]

initial-IsInSync : IsInSync initial
unfolding get
initial-IsInSync channel = refl

-- Whatever connections open and close, Redis is subscribed to exactly the channels with a listener.
pub run-initial-IsInSync :
    (events : List Event) {s : Subs}
    → run initial events ≡ some s
    → (channel : Text) → is_subscribed s.calls channel ≡ not (is_empty (get_or [] channel s.subs))
run-initial-IsInSync events e = run-IsInSync events initial initial-IsInSync e

-- ===== src/Streaming/Subs/Delivery.antt =====
-- Every listener gets the messages of its channel while it is open.
use mathlib.Core.Option.{some-injective}
use mastodon.Prelude.{
  ℕ, Text, text_eq, text_eq_iff, ◌≡◌, refl, sym, ap, Bool, true, false, not, ◌&&◌, ◌||◌, some, List,
  [], ◌∷◌, ◌++◌, ◌==◌, is_empty, any, any-append, filter_not, if◌then◌else◌, Option-cases, inl, inr,
  get, set, get_or, has, get-set, arith,
}
use mastodon.Streaming.Subs.{
  Subs, unsubscribes, Event, opens, closes, initial, subscribe, unsubscribe, on_message, step, run,
}

-- Every closed connection was opened on its channel before.
abbrev pub ClosesOpened : (Text → Bool) → List Event → Type 0
ClosesOpened known [] = Unit
ClosesOpened known (opens c k ∷ events) = ClosesOpened (λ x. text_eq c x || known x) events
ClosesOpened known (closes c k ∷ events) = (known c ≡ true) × ClosesOpened known events

has-subscribe :
    (s : Subs) (c x : Text) (k : ℕ) → has x (subscribe s c k).subs ≡ (text_eq c x || has x s.subs)
unfolding subscribe
has-subscribe s c x k = ground (arith, get-set c x (get_or [] c s.subs ++ k ∷ []) s.subs)

unsubscribe_known :
    (s : Subs) (c : Text) (k : ℕ)
    → has c s.subs ≡ true
    → (s' : Subs) × (unsubscribe s c k ≡ some s')
      × ((x : Text) → has x s.subs ≡ true → has x s'.subs ≡ true)
unfolding unsubscribe
unsubscribe_known s c k h = elim (Option-cases (get c s.subs)) [
  | inl missing ↦ absurd (ground (arith, missing))
  | inr (listeners, found) ↦ (
    record {
      subs = set c (filter_not (λ item. item == k) listeners) s.subs;
      calls =
          if is_empty (filter_not (λ item. item == k) listeners)
          then unsubscribes c ∷ s.calls
          else s.calls;
    },
    rw (found, unsubscribe) refl,
    (λ x e. ground (arith, get-set c x (filter_not (λ item. item == k) listeners) s.subs)),
  )
]

run-known :
    (events : List Event) (known : Text → Bool) (s : Subs)
    → ((x : Text) → known x ≡ true → has x s.subs ≡ true)
    → ClosesOpened known events
    → (s' : Subs) × (run s events ≡ some s')
unfolding run step
run-known [] known s h ok = (s, refl)
run-known (opens c k ∷ events) known s h ok =
    run-known events (λ x. text_eq c x || known x) (subscribe s c k)
      (λ x e. ground (arith, has-subscribe s c x k, h x)) ok
run-known (closes c k ∷ events) known s h ok =
    let (t, e, keep) = unsubscribe_known s c k (h c ok.0) in
    let (s', f) = run-known events known t (λ x g. keep x (h x g)) ok.1 in (s', rw (e, run) f)

-- No handler throws, also when the close and the error handler of one connection both run.
pub run-total :
    (events : List Event)
    → ClosesOpened (λ channel. false) events
    → (s : Subs) × (run initial events ≡ some s)
run-total events ok = run-known events (λ channel. false) initial (λ x e. cc) ok

-- Whether a listener is in the list.
abbrev pub listens : ℕ → List ℕ → Bool
listens k = any (λ item. item == k)

-- Whether the listener is open on the channel after the events, from what held before.
abbrev pub is_open : Text → ℕ → Bool → List Event → Bool
is_open channel k before [] = before
is_open channel k before (opens c l ∷ events) =
    is_open channel k ((text_eq c channel && l == k) || before) events
is_open channel k before (closes c l ∷ events) =
    is_open channel k (not (text_eq c channel && l == k) && before) events

listens-subscribe :
    (s : Subs) (c channel : Text) (l k : ℕ)
    → listens k (on_message (subscribe s c l) channel)
      ≡ ((text_eq c channel && l == k) || listens k (on_message s channel))
unfolding subscribe on_message
listens-subscribe s c channel l k = ground (
  arith,
  get-set c channel (get_or [] c s.subs ++ l ∷ []) s.subs,
  any-append (λ item. item == k) (get_or [] c s.subs) (l ∷ []),
  text_eq_iff c channel,
)

listens-filter_not :
    (l k : ℕ) (xs : List ℕ)
    → listens k (filter_not (λ item. item == l) xs) ≡ (not (l == k) && listens k xs)
listens-filter_not l k [] = ground arith
listens-filter_not l k (x ∷ xs) = ground (arith, listens-filter_not l k xs)

listens-unsubscribe :
    (s s' : Subs) (c channel : Text) (l k : ℕ)
    → unsubscribe s c l ≡ some s'
    → listens k (on_message s' channel)
      ≡ (not (text_eq c channel && l == k) && listens k (on_message s channel))
unfolding unsubscribe on_message
listens-unsubscribe s s' c channel l k e = elim (Option-cases (get c s.subs)) [
  | inl missing ↦ ground (arith, missing)
  | inr (listeners, found) ↦ ground (
    arith,
    found,
    get-set c channel (filter_not (λ item. item == l) listeners) s.subs,
    listens-filter_not l k listeners,
    text_eq_iff c channel,
  )
]

run-listens :
    (events : List Event) (s : Subs) {s' : Subs} (channel : Text) (k : ℕ)
    → run s events ≡ some s'
    → listens k (on_message s' channel)
      ≡ is_open channel k (listens k (on_message s channel)) events
unfolding run step
run-listens [] s channel k e =
    ap (λ (t : Subs). listens k (on_message t channel)) (sym (some-injective s _ e))
run-listens (opens c l ∷ events) s channel k e =
    rw (← listens-subscribe s c channel l k) (run-listens events (subscribe s c l) channel k e)
run-listens (closes c l ∷ events) s channel k e = elim (Option-cases (unsubscribe s c l)) [
  | inl n ↦ absurd (ground (arith, n))
  | inr (t, f) ↦
      rw (← listens-unsubscribe s t c channel l k f)
        (run-listens events t channel k (rw (f, run) at e))
]

-- After a history in which no handler throws, a message on a channel is handed to a listener exactly
-- if the listener was opened on that channel and has not been closed since.
pub run-on_message :
    (events : List Event) {s : Subs} (channel : Text) (k : ℕ)
    → run initial events ≡ some s
    → listens k (on_message s channel) ≡ is_open channel k false events
unfolding get on_message
run-on_message events channel k e = run-listens events initial channel k e

-- ===== src/Thunks/Imported.antt =====
-- What the import of statuses (app/javascript/mastodon/actions/importer/index.js) files, as a table
-- of the fetched statuses and of those that they reblog.
use mastodon.Prelude.{
  Text, text_eq, text_eq_iff, ◌||◌, ◌≡◌, ◌∙◌, refl, sym, ap, Bool, true, false, not, Option, none,
  some, is_some, List, [], ◌∷◌, ◌++◌, append_assoc, append-nil, any, get, set, get-set, is_empty,
  if◌then◌else◌, Bool-cases, Option-cases, inl, inr, arith,
}
use mastodon.Entities.{StatusEntry}
use mastodon.Reducers.Statuses.{Statuses, import_statuses}
use mastodon.Store.{Store}
use mastodon.Thunks.Answers.{Fetched, original, reblog, post_of, status_of}
use mastodon.Thunks.Importer.{
  Collected, first_of, push_unique, collect, process_status, process_statuses, normalize_status,
}

-- A status, the one that it reblogs, the one that this one reblogs, and so on.
abbrev pub chain : Fetched → List Fetched
chain (original post) = original post ∷ []
chain (reblog post inner) =
    let further = chain inner in
    reblog post inner ∷ (if is_empty (post_of inner).id then [] else further)

abbrev pub chains : List Fetched → List Fetched
chains [] = []
chains (s ∷ list) = chain s ++ chains list

-- The first status with the id.
abbrev pub first : Text → List Fetched → Option Fetched
first k [] = none
first k (s ∷ list) = if text_eq (post_of s).id k then some s else first k list

-- What is to be kept of a fetched status where the store had this entry for its id.
abbrev pub entry_for : Fetched → Option StatusEntry → StatusEntry
entry_for s none = record {
  body = some (status_of s);
  favourited = (post_of s).favourited;
  reblogged = (post_of s).reblogged;
  muted = (post_of s).muted;
  hidden = some (not (is_empty (post_of s).spoiler_text) || (post_of s).sensitive);
}
entry_for s (some old) = record {
  body = some (status_of s);
  favourited = (post_of s).favourited;
  reblogged = (post_of s).reblogged;
  muted = (post_of s).muted;
  hidden = old.hidden;
}

-- What is under an id after the import, if this is the first fetched status with the id.
abbrev pub imported : Option Fetched → Option StatusEntry → Option StatusEntry
imported none old = old
imported (some s) old = some (entry_for s old)

abbrev or_last : Text → Fetched → Option Fetched → Option Fetched
or_last k s none = if text_eq (post_of s).id k then some s else none
or_last k s (some t) = some t

first-append :
    (k : Text) (seen : List Fetched) (s : Fetched)
    → first k (seen ++ (s ∷ [])) ≡ or_last k s (first k seen)
first-append k [] s = refl
first-append k (t ∷ seen) s = elim (Bool-cases (text_eq (post_of t).id k)) [
  | inl e ↦ rw e refl
  | inr e ↦ rw e (first-append k seen s)
]

normalize_status-entry_for :
    (s : Fetched) (old : Option StatusEntry) → normalize_status s old ≡ entry_for s old
unfolding normalize_status
normalize_status-entry_for s none = refl
normalize_status-entry_for s (some old) = refl

import_statuses-append :
    (state : Statuses) (list : List (Text × StatusEntry)) (id : Text) (entry : StatusEntry)
    → import_statuses state (list ++ ((id, entry) ∷ [])) ≡ set id entry (import_statuses state list)
unfolding import_statuses
import_statuses-append state [] id entry = refl
import_statuses-append state ((k, x) ∷ list) id entry =
    import_statuses-append (set k x state) list id entry

any-append :
    (p : Text × StatusEntry → Bool) (list : List (Text × StatusEntry)) (x : Text × StatusEntry)
    → any p (list ++ (x ∷ [])) ≡ (any p list || p x)
any-append p [] x = ground arith
any-append p (y ∷ list) x = ground (arith, any-append p list x)

is_some-or_last :
    (k : Text) (s : Fetched) (o : Option Fetched)
    → (is_some o || text_eq (post_of s).id k) ≡ is_some (or_last k s o)
is_some-or_last k s none = ground arith
is_some-or_last k s (some t) = refl

-- A status with an id that is there changes nothing.
or_last_kept :
    (k : Text) (s : Fetched) (seen : List Fetched)
    → is_some (first (post_of s).id seen) ≡ true
    → or_last k s (first k seen) ≡ first k seen
or_last_kept k s seen h = elim (Option-cases (first k seen)) [
  | inl n ↦
      let other : text_eq (post_of s).id k ≡ false = differs k s seen h n in rw n (rw other refl)
  | inr (t, e) ↦ rw e refl
]
  where
    differs :
        (k : Text) (s : Fetched) (seen : List Fetched)
        → is_some (first (post_of s).id seen) ≡ true
        → first k seen ≡ none
        → text_eq (post_of s).id k ≡ false
    differs k s seen h n = elim (Bool-cases (text_eq (post_of s).id k)) [
      | inl e ↦
          let same = ap (λ j. is_some (first j seen)) ((text_eq_iff (post_of s).id k).0 e) in
          absurd (cc)
      | inr e ↦ e
    ]

-- A status with a new id is what is then under it.
imported-or_last :
    (before : Statuses) (k : Text) (s : Fetched) (o : Option Fetched)
    → (text_eq (post_of s).id k ≡ true → o ≡ none)
    → (if text_eq (post_of s).id k
        then some (normalize_status s (get (post_of s).id before))
        else imported o (get k before))
      ≡ imported (or_last k s o) (get k before)
imported-or_last before k s o h = elim (Bool-cases (text_eq (post_of s).id k)) [
  | inl e ↦
      let same = (text_eq_iff (post_of s).id k).0 e in
      rw (e, h e) (rw (e, same) (ap some (normalize_status-entry_for s (get k before))))
  | inr e ↦ rw e (ap (λ p. imported p (get k before)) (unchanged k s o e))
]
  where
    unchanged :
        (k : Text) (s : Fetched) (o : Option Fetched)
        → text_eq (post_of s).id k ≡ false
        → o ≡ or_last k s o
    unchanged k s none e = rw e refl
    unchanged k s (some t) e = refl

fresh :
    (k : Text) (s : Fetched) (seen : List Fetched)
    → is_some (first (post_of s).id seen) ≡ false
    → text_eq (post_of s).id k ≡ true
    → first k seen ≡ none
fresh k s seen h e =
    let same = ap (λ j. is_some (first j seen)) ((text_eq_iff (post_of s).id k).0 e) in
    elim (Option-cases (first k seen)) [ inl n ↦ n | inr (t, found) ↦ absurd (cc) ]

-- Statuses that were collected are those of a list, the first with each id.
module _ (store : Store) where
  abbrev pub Collects : Collected → List Fetched → Type 0
  Collects c seen =
      (k : Text)
      → (any (λ x. text_eq (first_of x) k) c.statuses ≡ is_some (first k seen))
        × (get k (import_statuses store.statuses_state c.statuses)
            ≡ imported (first k seen) (get k store.statuses_state))

  collect-Collects :
      (c : Collected) (seen : List Fetched) (s : Fetched)
      → Collects c seen
      → Collects (collect store c s) (seen ++ (s ∷ []))
  unfolding push_unique
  collect-Collects c seen s h k =
      elim (Bool-cases (any (λ x. text_eq (first_of x) (post_of s).id) c.statuses)) [
        | inl old ↦
            let there = sym (h (post_of s).id).0 ∙ old in
            rw (old, first-append k seen s, or_last_kept k s seen there) (h k)
        | inr new ↦
            rw (new, first-append k seen s)
              (
                any-append _ c.statuses _
                    ∙ ap (◌|| text_eq (post_of s).id k) (h k).0
                    ∙ is_some-or_last k s (first k seen),
                ap (get k) (import_statuses-append store.statuses_state c.statuses _ _)
                    ∙ get-set (post_of s).id k _ (import_statuses store.statuses_state c.statuses)
                    ∙ ap
                        (λ o.
                          if text_eq (post_of s).id k
                          then some (normalize_status s (get (post_of s).id store.statuses_state))
                          else o)
                        (h k).1
                    ∙ imported-or_last store.statuses_state k s (first k seen)
                        (fresh k s seen (sym (h (post_of s).id).0 ∙ new)),
              )
      ]

  process_status-Collects :
      (s : Fetched) (c : Collected) (seen : List Fetched)
      → Collects c seen
      → Collects (process_status store c s) (seen ++ chain s)
  unfolding process_status
  process_status-Collects (original post) c seen h = collect-Collects c seen (original post) h
  process_status-Collects (reblog post inner) c seen h =
      let outer = collect-Collects c seen (reblog post inner) h in
      elim (Bool-cases (is_empty (post_of inner).id)) [
        | inl e ↦ rw e outer
        | inr e ↦
            rw (e, ← append_assoc seen (reblog post inner ∷ []) (chain inner))
              (process_status-Collects inner (collect store c (reblog post inner))
                (seen ++ (reblog post inner ∷ [])) outer)
      ]

  pub process_statuses-Collects :
      (list : List Fetched) (c : Collected) (seen : List Fetched)
      → Collects c seen
      → Collects (process_statuses store c list) (seen ++ chains list)
  unfolding process_statuses
  process_statuses-Collects [] c seen h = rw (append-nil seen) h
  process_statuses-Collects (s ∷ list) c seen h = rw (← append_assoc seen (chain s) (chains list)) (
      process_statuses-Collects list (process_status store c s) (seen ++ chain s)
        (process_status-Collects s c seen h))

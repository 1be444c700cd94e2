-- ===== src/Thunks/Importing.antt =====
-- What the import of statuses (app/javascript/mastodon/actions/importer/index.js) leaves in the store.
use mathlib.Core.Path.{subst}
use mastodon.Prelude.{
  Text, text_eq, text_eq_iff, ◌≡◌, refl, inl, inr, true, Option, All-append, none, some, List, [],
  ◌∷◌, any, All, get, set, get-set, is_empty, IfSome, Bool-cases,
}
use mastodon.Entities.{Status, StatusEntry}
use mastodon.Compose.State.{Env}
use mastodon.Compose.{compose}
use mastodon.Reducers.UserLists.{user_lists}
use mastodon.Reducers.Statuses.{Statuses, statuses, import_statuses}
use mastodon.Reducers.Settings.{settings}
use mastodon.Store.{Store, reducer}
use mastodon.Thunks.Answers.{Fetched, original, reblog, post_of}
use mastodon.Thunks.Importer.{
  Collected, first_of, push_unique, collect, process_status, process_statuses, normalize_status,
  import_fetched_statuses, import_collected, nothing_collected,
}
use mastodon.Thunks.Run.{World, Texts, run, dispatched, alerted, bar_of, ends_with}
use mastodon.Thunks.Deleting.{IsKeyed}
use mastodon.Thunks.Imported.{chains, first, imported, Collects, process_statuses-Collects}

push_unique-All :
    {A : Type 0} (P : A → Type 0) (id_of : A → Text) (array : List A) (object : A)
    → P object
    → All P array
    → All P (push_unique id_of array object)
unfolding push_unique
push_unique-All P id_of array object h hs =
    elim (Bool-cases (any (λ element. text_eq (id_of element) (id_of object)) array)) [
      | inl e ↦ rw e hs
      | inr e ↦ rw e (All-append P array (object ∷ []) hs (h, tt))
    ]

-- A relation between the keys of the store and what is kept under them.
module _ (Q : Text → StatusEntry → Type 0) where
  abbrev Filed : Text × StatusEntry → Type 0
  Filed (k, entry) = Q k entry

  abbrev AllFiled : Statuses → Type 0
  AllFiled state = (k : Text) → IfSome (Q k) (get k state)

  set-AllFiled :
      (state : Statuses) (id : Text) (entry : StatusEntry)
      → Q id entry
      → AllFiled state
      → AllFiled (set id entry state)
  set-AllFiled state id entry h hs k =
      rw (get-set id k entry state) (elim (Bool-cases (text_eq id k)) [
        | inl e ↦ rw e (subst (λ j. Q j entry) ((text_eq_iff id k).0 e) h)
        | inr e ↦ rw e (hs k)
      ])

  import_statuses-AllFiled :
      (list : List (Text × StatusEntry)) (state : Statuses)
      → All Filed list
      → AllFiled state
      → AllFiled (import_statuses state list)
  unfolding import_statuses
  import_statuses-AllFiled [] state h hs = hs
  import_statuses-AllFiled ((id, entry) ∷ list) state h hs =
      import_statuses-AllFiled list (set id entry state) h.1 (set-AllFiled state id entry h.0 hs)

  module _ (store : Store)
      (normalized : (s : Fetched)
        → Q (post_of s).id (normalize_status s (get (post_of s).id store.statuses_state))) where
    process_status-Filed :
        (s : Fetched) (c : Collected)
        → All Filed c.statuses
        → All Filed (process_status store c s).statuses
    unfolding process_status
    process_status-Filed (original post) c h =
        push_unique-All Filed first_of c.statuses _ (normalized (original post)) h
    process_status-Filed (reblog post inner) c h =
        let outer =
          push_unique-All Filed first_of c.statuses _ (normalized (reblog post inner)) h in
        elim (Bool-cases (is_empty (post_of inner).id)) [
          | inl e ↦ rw e outer
          | inr e ↦ rw e (process_status-Filed inner (collect store c (reblog post inner)) outer)
        ]

    process_statuses-Filed :
        (list : List Fetched) (c : Collected)
        → All Filed c.statuses
        → All Filed (process_statuses store c list).statuses
    unfolding process_statuses
    process_statuses-Filed [] c h = h
    process_statuses-Filed (s ∷ list) c h =
        process_statuses-Filed list (process_status store c s) (process_status-Filed s c h)

  run-import-AllFiled :
      (env : Env) (texts : Texts) (list : List Fetched) (w : World)
      → ((s : Fetched)
          → Q (post_of s).id (normalize_status s (get (post_of s).id w.store.statuses_state)))
      → AllFiled w.store.statuses_state
      → AllFiled (run env texts (import_fetched_statuses list) w).world.store.statuses_state
  unfolding run dispatched alerted bar_of ends_with text_eq import_fetched_statuses import_collected
      reducer compose user_lists settings statuses
  run-import-AllFiled env texts list w normalized h =
      import_statuses-AllFiled (process_statuses w.store nothing_collected list).statuses
        w.store.statuses_state (process_statuses-Filed w.store normalized list nothing_collected tt)
        h

abbrev IsOwn : Text → StatusEntry → Type 0
IsOwn k entry = IfSome (λ (s : Status). s.id ≡ k) entry.body

-- The decision about hiding is the one of the store, if the store has one.
abbrev pub IsAsHidden : Statuses → Text → StatusEntry → Type 0
IsAsHidden before k entry = IfSome (λ (old : StatusEntry). entry.hidden ≡ old.hidden) (get k before)

IsAsHidden-refl :
    (state : Statuses) (k : Text) (o : Option StatusEntry)
    → get k state ≡ o
    → IfSome (IsAsHidden state k) o
IsAsHidden-refl state k none e = tt
IsAsHidden-refl state k (some entry) e = rw e refl

normalize_status-IsAsHidden :
    (s : Fetched) (o : Option StatusEntry)
    → IfSome (λ (old : StatusEntry). (normalize_status s o).hidden ≡ old.hidden) o
unfolding normalize_status
normalize_status-IsAsHidden s none = tt
normalize_status-IsAsHidden s (some old) = refl

normalize_status-IsOwn :
    (s : Fetched) (o : Option StatusEntry) → IsOwn (post_of s).id (normalize_status s o)
unfolding normalize_status
normalize_status-IsOwn s o = refl

nothing-Collects : (store : Store) → Collects store nothing_collected []
unfolding import_statuses
nothing-Collects store k = (refl, refl)

-- Importing statuses that were fetched completes. Each of them, and each that they reblog unless its
-- id is empty, is filed under its id as the server sent it, the first one where two have the same id, with `hidden` as the
-- store had it for this id, else as the content warning and `sensitive` say; under every other id
-- is what was there. Where every stored status was kept under its own id this still holds, and of
-- each status that the store already had `hidden` is as it was.
pub run-import-IsKeyed :
    (env : Env) (texts : Texts) (list : List Fetched) (w : World)
    → IsKeyed w.store.statuses_state
    → let o = run env texts (import_fetched_statuses list) w in
      (o.completed ≡ true)
      × ((k : Text)
          → get k o.world.store.statuses_state
            ≡ imported (first k (chains list)) (get k w.store.statuses_state))
      × IsKeyed o.world.store.statuses_state
      × ((k : Text)
          → IfSome (IsAsHidden w.store.statuses_state k) (get k o.world.store.statuses_state))
unfolding run dispatched alerted bar_of ends_with text_eq import_fetched_statuses import_collected
    reducer compose user_lists settings statuses
run-import-IsKeyed env texts list w keyed = (
  refl,
  λ k. (process_statuses-Collects w.store list nothing_collected [] (nothing-Collects w.store) k).1,
  run-import-AllFiled IsOwn env texts list w
      (λ s. normalize_status-IsOwn s (get (post_of s).id w.store.statuses_state)) keyed,
  run-import-AllFiled (IsAsHidden w.store.statuses_state) env texts list w
      (λ s. normalize_status-IsAsHidden s (get (post_of s).id w.store.statuses_state))
      (λ k. IsAsHidden-refl w.store.statuses_state k (get k w.store.statuses_state) refl),
)

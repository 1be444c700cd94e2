-- ===== src/Timelines/Delete.antt =====
-- What deleting a status, and blocking or unfollowing an account, leaves of each timeline.
use mathlib.Core.Option
use mastodon.Prelude.{
  Text, text_eq, option_eq, ◌≡◌, refl, sym, ap, ◌∙◌, Bool, false, ◌&&◌, ◌||◌, Option, none, some,
  List, [], ◌∷◌, map, filter_not, filter_not-filter_not, filter_not-cong, keep_if, any, Bool-cases,
  inl, inr, Map, get, get-map_values, values, arith,
}
use mastodon.Entities.{Status, Relationship}
use mastodon.Actions.{Reference}
use mastodon.Timelines.{
  Ids, Timeline, Timelines, drop_id, delete_single, delete_references, delete_status, references_of,
  filter_loop, filter_timelines,
}

-- The item is one of the ids.
abbrev pub is_one_of : List Text → Option Text → Bool
is_one_of ids item = any (λ id. option_eq item (some id)) ids

-- A timeline without some of its items.
abbrev pub without : (Option Text → Bool) → Timeline → Timeline
without p t = record t { items = filter_not p t.items }

without-without :
    (p q : Option Text → Bool) (o : Option Timeline)
    → Option.map (without p) (Option.map (without q) o) ≡ Option.map (without (λ x. q x || p x)) o
without-without p q none = refl
without-without p q (some t) =
    ap (λ (items : Ids). some (record t { items = items })) (filter_not-filter_not p q t.items)

filter_not_nothing : (items : Ids) → filter_not (λ x. false) items ≡ items
filter_not_nothing [] = refl
filter_not_nothing (item ∷ items) = ap (item ∷◌) (filter_not_nothing items)

without_nothing : (o : Option Timeline) → Option.map (without (λ x. false)) o ≡ o
without_nothing none = refl
without_nothing (some t) =
    ap (λ (items : Ids). some (record t { items = items })) (filter_not_nothing t.items)

without-cong :
    (p q : Option Text → Bool) (o : Option Timeline)
    → ((x : Option Text) → p x ≡ q x)
    → Option.map (without p) o ≡ Option.map (without q) o
without-cong p q none h = refl
without-cong p q (some t) h =
    ap (λ (items : Ids). some (record t { items = items })) (filter_not-cong p q t.items h)

or_assoc : (a b c : Bool) → ((a || b) || c) ≡ (a || (b || c))
or_assoc a b c = ground arith

get-delete_references :
    (state : Timelines) (timeline : Text) (references : List Reference) (p : Option Text → Bool)
    (base : Timelines)
    → get timeline state ≡ Option.map (without p) (get timeline base)
    → get timeline (delete_references state references)
      ≡ Option.map
          (without (λ x. p x || is_one_of (map (λ (r : Reference). r.0) references) x))
          (get timeline base)
unfolding delete_references delete_single
get-delete_references state timeline [] p base e =
    e ∙ without-cong p _ (get timeline base) (λ x. ground arith)
get-delete_references state timeline ((ref, account) ∷ references) p base e =
    get-delete_references (delete_single state ref) timeline references
      (λ x. p x || option_eq x (some ref)) base
      (get-map_values (drop_id ref) timeline state
        ∙ (ap (Option.map (drop_id ref)) e
            ∙ without-without (λ x. option_eq x (some ref)) p (get timeline base)))
    ∙ without-cong _ _ (get timeline base) (λ x. or_assoc (p x) (option_eq x (some ref)) _)

-- Each timeline loses the id and the ids that refer to it, and nothing else.
pub get-delete_status :
    (state : Timelines) (timeline id : Text) (references : List Reference)
    → get timeline (delete_status state id references)
      ≡ Option.map
          (without (is_one_of (id ∷ map (λ (r : Reference). r.0) references)))
          (get timeline state)
unfolding delete_status
get-delete_status state timeline id references =
    get-delete_references (delete_single state id) timeline references (λ x. option_eq x (some id))
      state (unfold delete_single in get-map_values (drop_id id) timeline state)

-- The item is the id of one of the listed statuses that the owner wrote, or of a reblog of it
-- among the known statuses.
abbrev pub hidden_by : Text → Map Status → List Status → Option Text → Bool
hidden_by owner statuses rest item =
    any
      (λ (s : Status).
        text_eq s.account owner
        && (option_eq item (some s.id)
            || any (λ (r : Status). option_eq r.reblog (some s.id) && option_eq item (some r.id))
                (values statuses)))
      rest

is_one_of-references :
    (id : Text) (item : Option Text) (all : List Status)
    → is_one_of
        (map
          (λ (r : Reference). r.0)
          (map
            (λ (s : Status). (s.id, s.account))
            (keep_if (λ (s : Status). option_eq s.reblog (some id)) all)))
        item
      ≡ any (λ (r : Status). option_eq r.reblog (some id) && option_eq item (some r.id)) all
is_one_of-references id item [] = refl
is_one_of-references id item (r ∷ all) = elim (Bool-cases (option_eq r.reblog (some id))) [
  | inl e ↦ rw e (ap (option_eq item (some r.id) ||◌) (is_one_of-references id item all))
  | inr e ↦ rw e (is_one_of-references id item all)
]

get-filter_loop :
    (owner timeline : Text) (statuses : Map Status) (rest : List Status) (state base : Timelines)
    (p : Option Text → Bool)
    → get timeline state ≡ Option.map (without p) (get timeline base)
    → get timeline (filter_loop owner statuses rest state)
      ≡ Option.map (without (λ x. p x || hidden_by owner statuses rest x)) (get timeline base)
unfolding filter_loop references_of
get-filter_loop owner timeline statuses [] state base p e =
    e ∙ without-cong p _ (get timeline base) (λ x. ground arith)
get-filter_loop owner timeline statuses (s ∷ rest) state base p e =
    elim (Bool-cases (text_eq s.account owner)) [
      | inl own ↦ rw own (
          get-filter_loop owner timeline statuses rest
            (delete_status state s.id (references_of s.id statuses)) base
            (λ x.
              p x
              || is_one_of (s.id ∷ map (λ (r : Reference). r.0) (references_of s.id statuses)) x)
            (get-delete_status state timeline s.id (references_of s.id statuses)
              ∙ (ap (Option.map (without _)) e ∙ without-without _ p (get timeline base)))
          ∙ without-cong _ _ (get timeline base)
              (λ x. ground (arith, is_one_of-references s.id x (values statuses))))
      | inr other ↦ rw other (get-filter_loop owner timeline statuses rest state base p e)
    ]

-- Blocking or muting an account removes its known statuses and their known reblogs from every
-- timeline, and nothing else.
pub get-filter_timelines :
    (state : Timelines) (timeline : Text) (relationship : Relationship) (statuses : Map Status)
    → get timeline (filter_timelines state relationship statuses)
      ≡ Option.map
          (without (hidden_by relationship.id statuses (values statuses)))
          (get timeline state)
unfolding filter_timelines
get-filter_timelines state timeline relationship statuses =
    get-filter_loop relationship.id timeline statuses (values statuses) state state (λ x. false)
      (sym (without_nothing (get timeline state)))

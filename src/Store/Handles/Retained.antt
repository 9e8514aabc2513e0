-- ===== src/Store/Handles/Retained.antt =====
-- What `retainRecentEvents` keeps: apps/bridge/src/state-store/session-transitions.ts.
use ariava.Prelude.{
  ℕ, zero, suc, ◌-◌, ◌≤◌, ◌<◌, String, ◌≡◌, refl, sym, ap, ◌∙◌, Bool, true, false, not, ◌&&◌, ◌||◌,
  none, List, [], ◌∷◌, ◌++◌, ltb, find, any, keep_if, take, length, length-append, length-take,
  string_eq, arith, eq_iff, Bool-cases, inl, inr, ◌⊎◌,
}
use ariava.Prelude.Dict.{Dict, contains}
use ariava.Prelude.Sorting.{
  sort_by, sort_by-cons, sort_by-nil, any-sort_by, find-insert_sorted, length-sort_by,
}
use ariava.Store.State.{CanonicalEvent, PendingHandle}
use ariava.Store.Handles.{
  max_recent_events, has_id, first_of_each, protected_ids, is_protected, is_older, kept_events,
  retain_recent_events,
}

-- No id occurs twice.
abbrev pub distinct_ids : List CanonicalEvent → Bool
distinct_ids [] = true
distinct_ids (e ∷ es) = not (any (has_id e.event_id) es) && distinct_ids es

any_id : (es : List CanonicalEvent) (i j : String) → i ≡ j → any (has_id i) es ≡ any (has_id j) es
any_id es i j same = ap (λ k. any (has_id k) es) same

any-first_of_each :
    (before es : List CanonicalEvent) (id : String)
    → any (has_id id) (first_of_each before es)
      ≡ (any (has_id id) es && not (any (has_id id) before))
unfolding first_of_each
any-first_of_each before [] id = refl
any-first_of_each before (e ∷ es) id =
    ground (
      arith,
      any-first_of_each (e ∷ before) es id,
      eq_iff e.event_id id,
      any_id before e.event_id id,
    )

find-first_of_each :
    (before es : List CanonicalEvent) (id : String)
    → any (has_id id) before ≡ false
    → find (has_id id) (first_of_each before es) ≡ find (has_id id) es
unfolding first_of_each
find-first_of_each before [] id h = refl
find-first_of_each before (e ∷ es) id h = ground (
  arith,
  find-first_of_each (e ∷ before) es id,
  eq_iff e.event_id id,
  any_id before e.event_id id,
)

distinct-first_of_each :
    (before es : List CanonicalEvent) → distinct_ids (first_of_each before es) ≡ true
unfolding first_of_each
distinct-first_of_each before [] = refl
distinct-first_of_each before (e ∷ es) = ground (
  arith,
  distinct-first_of_each (e ∷ before) es,
  any-first_of_each (e ∷ before) es e.event_id,
  eq_iff e.event_id e.event_id,
)

-- Sorting events with distinct ids does not change which event has an id.
any-sorted :
    (p : CanonicalEvent → Bool) (es : List CanonicalEvent) → any p (sort_by is_older es) ≡ any p es
any-sorted p es = any-sort_by is_older p es

same_id :
    (e f : CanonicalEvent) (id : String)
    → has_id id e ≡ true
    → has_id id f ≡ true
    → has_id e.event_id f ≡ true
same_id e f id he hf =
    ground (arith, eq_iff e.event_id id, eq_iff f.event_id id, eq_iff f.event_id e.event_id)

any_same :
    (e : CanonicalEvent) (es : List CanonicalEvent) (id : String)
    → has_id id e ≡ true
    → any (has_id id) es ≡ any (has_id e.event_id) es
any_same e es id h = sym (any_id es e.event_id id ((eq_iff e.event_id id).0 h))

find-sorted :
    (es : List CanonicalEvent) (id : String)
    → distinct_ids es ≡ true
    → find (has_id id) (sort_by is_older es) ≡ find (has_id id) es
find-sorted [] id h = ground (arith, sort_by-nil is_older)
find-sorted (e ∷ es) id h = ground (
  arith,
  sort_by-cons is_older e es,
  find-insert_sorted is_older (has_id id) e (sort_by is_older es),
  any-sorted (has_id id) es,
  any_same e es id,
  find-sorted es id,
)

any-keep_if :
    (p : CanonicalEvent → Bool) (es : List CanonicalEvent) (id : String)
    → any (has_id id) es ≡ false
    → any (has_id id) (keep_if p es) ≡ false
any-keep_if p [] id h = refl
any-keep_if p (e ∷ es) id h = ground (arith, any-keep_if p es id)

any-take :
    (n : ℕ) (es : List CanonicalEvent) (id : String)
    → any (has_id id) es ≡ false
    → any (has_id id) (take n es) ≡ false
any-take zero es id h = refl
any-take (suc n) [] id h = refl
any-take (suc n) (e ∷ es) id h = ground (arith, any-take n es id)

find-any :
    (es : List CanonicalEvent) (id : String)
    → any (has_id id) es ≡ false
    → find (has_id id) es ≡ none
find-any [] id h = refl
find-any (e ∷ es) id h = ground (arith, find-any es id)

contains_id : (ids : List String) (i j : String) → i ≡ j → contains ids i ≡ contains ids j
contains_id ids i j same = ap (contains ids) same

-- A protected event that is found is found among those kept.
find-protected :
    (ids : List String) (es rest : List CanonicalEvent) (id : String)
    → contains ids id ≡ true
    → any (has_id id) rest ≡ false
    → find (has_id id) (keep_if (is_protected ids) es ++ rest) ≡ find (has_id id) es
find-protected ids [] rest id h none_later = find-any rest id none_later
find-protected ids (e ∷ es) rest id h none_later =
    ground
      (arith, find-protected ids es rest id, eq_iff e.event_id id, contains_id ids e.event_id id)

any-unprotected :
    (ids : List String) (es : List CanonicalEvent) (id : String)
    → contains ids id ≡ true
    → any (has_id id) (keep_if (λ e. not (is_protected ids e)) es) ≡ false
any-unprotected ids [] id h = refl
any-unprotected ids (e ∷ es) id h =
    ground (arith, any-unprotected ids es id, eq_iff e.event_id id, contains_id ids e.event_id id)

only_protected :
    (ids : List String) (es : List CanonicalEvent) (id : String)
    → any (has_id id) (keep_if (is_protected ids) es) ≡ true
    → contains ids id ≡ true
only_protected ids [] id h = cc
only_protected ids (e ∷ es) id h =
    ground (arith, only_protected ids es id, eq_iff e.event_id id, contains_id ids e.event_id id)

any-append :
    (id : String) (xs ys : List CanonicalEvent)
    → any (has_id id) (xs ++ ys) ≡ any (has_id id) xs || any (has_id id) ys
any-append id [] ys = refl
any-append id (x ∷ xs) ys = ground (arith, any-append id xs ys)

distinct-append :
    (xs ys : List CanonicalEvent)
    → distinct_ids xs ≡ true
    → distinct_ids ys ≡ true
    → ((id : String) → any (has_id id) xs ≡ true → any (has_id id) ys ≡ false)
    → distinct_ids (xs ++ ys) ≡ true
distinct-append [] ys hx hy apart = hy
distinct-append (x ∷ xs) ys hx hy apart = ground (
  arith,
  distinct-append xs ys _ hy (λ id h. apart id (ground arith)),
  any-append x.event_id xs ys,
  apart x.event_id,
  eq_iff x.event_id x.event_id,
)

distinct-keep_if :
    (p : CanonicalEvent → Bool) (es : List CanonicalEvent)
    → distinct_ids es ≡ true
    → distinct_ids (keep_if p es) ≡ true
distinct-keep_if p [] h = refl
distinct-keep_if p (e ∷ es) h = ground (arith, distinct-keep_if p es, any-keep_if p es e.event_id)

distinct-take :
    (n : ℕ) (es : List CanonicalEvent) → distinct_ids es ≡ true → distinct_ids (take n es) ≡ true
distinct-take zero es h = refl
distinct-take (suc n) [] h = refl
distinct-take (suc n) (e ∷ es) h = ground (arith, distinct-take n es, any-take n es e.event_id)

distinct-kept :
    (ids : List String) (es : List CanonicalEvent)
    → distinct_ids es ≡ true
    → distinct_ids (kept_events ids es) ≡ true
unfolding kept_events
distinct-kept ids es h =
    distinct-append (keep_if (is_protected ids) es) _ (distinct-keep_if (is_protected ids) es h)
      (distinct-take (max_recent_events - length (keep_if (is_protected ids) es))
        (keep_if (λ e. not (is_protected ids e)) es)
        (distinct-keep_if (λ e. not (is_protected ids e)) es h))
      (λ id found. any-take _ _ id (any-unprotected ids es id (only_protected ids es id found)))

find-kept :
    (ids : List String) (es : List CanonicalEvent) (id : String)
    → contains ids id ≡ true
    → find (has_id id) (kept_events ids es) ≡ find (has_id id) es
unfolding kept_events
find-kept ids es id h = find-protected ids es _ id h (any-take _ _ id (any-unprotected ids es id h))

-- An event that a pending handle refers to is found after the retention as it was found before.
pub retain-find :
    (events : List CanonicalEvent) (handles : Dict PendingHandle) (id : String)
    → contains (protected_ids handles) id ≡ true
    → find (has_id id) (retain_recent_events events handles) ≡ find (has_id id) events
unfolding retain_recent_events
retain-find events handles id h =
    let unique = first_of_each [] events in
    find-sorted (kept_events (protected_ids handles) unique) id
      (distinct-kept (protected_ids handles) unique (distinct-first_of_each [] events))
    ∙ find-kept (protected_ids handles) unique id h
    ∙ find-first_of_each [] events id refl

any-take_zero :
    (p : CanonicalEvent → Bool) (n : ℕ) (es : List CanonicalEvent)
    → n ≡ 0
    → any p (take n es) ≡ false
any-take_zero p n es none_taken = rw none_taken refl

all_protected :
    (ids : List String) (es rest : List CanonicalEvent)
    → any (λ e. not (is_protected ids e)) rest ≡ false
    → any (λ e. not (is_protected ids e)) (keep_if (is_protected ids) es ++ rest) ≡ false
all_protected ids [] rest h = h
all_protected ids (e ∷ es) rest h = ground (arith, all_protected ids es rest)

length-kept :
    (ids : List String) (es : List CanonicalEvent)
    → max_recent_events < length (kept_events ids es)
    → any (λ e. not (is_protected ids e)) (kept_events ids es) ≡ false
unfolding kept_events
length-kept ids es more =
    let protected_events = keep_if (is_protected ids) es in
    let others = keep_if (λ e. not (is_protected ids e)) es in
    let none_available : max_recent_events - length protected_events ≡ 0 = omega (
      arith,
      length-append protected_events (take (max_recent_events - length protected_events) others),
      length-take (max_recent_events - length protected_events) others,
    ) in
    all_protected ids es _ (any-take_zero _ _ others none_available)

-- At most 200 events are retained, unless a pending handle refers to each that is.
pub retain-bound :
    (events : List CanonicalEvent) (handles : Dict PendingHandle)
    → (length (retain_recent_events events handles) ≤ max_recent_events)
      ⊎ (any
            (λ e. not (is_protected (protected_ids handles) e))
            (retain_recent_events events handles)
          ≡ false)
unfolding retain_recent_events
retain-bound events handles =
    let ids = protected_ids handles in
    let kept = kept_events ids (first_of_each [] events) in
    elim (Bool-cases (ltb max_recent_events (length kept))) [
      | inl more ↦
          inr
            (any-sort_by is_older _ kept ∙ length-kept ids (first_of_each [] events) (ground arith))
      | inr few ↦ inl (ground (arith, length-sort_by is_older kept))
    ]

-- ===== src/Topics/Held/Kept.antt =====
-- server/src/topic_handler/mod.rs: publishing, and unsubscribing from a filter whose walk ends at a
-- `+`, over the map of subscriptions.
use t1_tp.Common.{
  ◌⊎◌, ◌≡◌, refl, ◌∙◌, inl, inr, Bool, true, false, not, ◌&&◌, List, [], ◌∷◌, Option, none, some,
  if◌then◌else◌, arith, is_empty, same_text, same_text_iff, Option-cases, Bool-cases,
}
use t1_tp.Packets.Publish.{Publish}
use t1_tp.Topics.Names.{Level, single, kind, Kind-cases}
use t1_tp.Topics.Tree.{
  ClientId, Subscribers, Subscriptions, Topic, topic, Subtopics, subtopics, with_subtopics, new,
  find, put,
}
use t1_tp.Topics.Subscribing.{settle, unsubscribe}
use t1_tp.Topics.Publishing.{publish, update_retained_message}
use t1_tp.Topics.Held.{held, find-put, held-new}
use t1_tp.Topics.Held.Unsubscribed.{plus_at_end}
use t1_tp.Topics.Held.Settled.{held_below, held_from_below, held-settle}

module _ (x y : Level) (g : List Level) (sub : Topic) (s : Subtopics) (u m : Subscribers)
    (w : Subscriptions) (r : Option Publish) (k : ClientId) where
  -- A subtopic that holds below it what the old one does
  put_keeps :
      held_below g (some sub) k ≡ held_below g (find x s) k
      → held (y ∷ g) (topic (put x sub s) u m w r) k ≡ held (y ∷ g) (topic s u m w r) k
  put_keeps h = held_from_below y g (put x sub s) s u m w r k (elim (Bool-cases (same_text x y)) [
    | inl same ↦ rw (find-put x y sub s, same) (rw ((same_text_iff x y).0 same) at h)
    | inr differs ↦ rw (find-put x y sub s, differs)
  ])

  -- No subscription stands in a subtopic whose name is a wildcard.
  put_wild :
      kind x ≡ single
      → held (y ∷ g) (topic (put x sub s) u m w r) k ≡ held (y ∷ g) (topic s u m w r) k
  unfolding held
  put_wild e = ground (arith, same_text_iff x y, find-put x y sub s)

module _ (n : Level) (ns : List Level) (t : Topic) (p : Publish) (is_root : Bool) where
  publish_found :
      (old : Topic)
      → find n (subtopics t) ≡ some old
      → (publish (n ∷ ns) t p is_root).0 ≡ settle n (publish ns old p false).0 t
  unfolding publish
  publish_found old present = rw (present, publish)

  publish_lost :
      find n (subtopics t) ≡ none
      → (publish (n ∷ ns) t p is_root).0 ≡ (
          if p.retain_flag && not (is_empty p.payload)
          then with_subtopics t (put n (publish ns new p false).0 (subtopics t))
          else t)
  unfolding publish
  publish_lost absent = rw (absent, publish) (ground arith)

held-update_retained_message :
    (g : List Level) (t : Topic) (p : Publish) (k : ClientId)
    → held g (update_retained_message t p) k ≡ held g t k
unfolding held update_retained_message
held-update_retained_message [] (topic s u m w r) p k = ground arith
held-update_retained_message (y ∷ g) (topic s u m w r) p k = ground arith

held_at_root :
    (s s' : Subtopics) (u m : Subscribers) (w : Subscriptions) (r : Option Publish) (k : ClientId)
    → held [] (topic s u m w r) k ≡ held [] (topic s' u m w r) k
unfolding held
held_at_root s s' u m w r k = refl

-- A node of which one subtopic is put back, with the same held below it
settle_keeps :
    (x : Level) (sub old t : Topic) (k : ClientId)
    → find x (subtopics t) ≡ some old
    → ((g : List Level) → held g sub k ≡ held g old k)
    → (g : List Level) → held g (settle x sub t) k ≡ held g t k
unfolding held_below
settle_keeps x sub old (topic s u m w r) k present same [] =
    held-settle x sub (topic s u m w r) [] k ∙ held_at_root (put x sub s) s u m w r k
settle_keeps x sub old (topic s u m w r) k present same (y ∷ g) =
    held-settle x sub (topic s u m w r) (y ∷ g) k
    ∙ put_keeps x y g sub s u m w r k (rw present (same g))

settle_wild :
    (x : Level) (sub t : Topic) (k : ClientId)
    → kind x ≡ single
    → (g : List Level) → held g (settle x sub t) k ≡ held g t k
settle_wild x sub (topic s u m w r) k e [] =
    held-settle x sub (topic s u m w r) [] k ∙ held_at_root (put x sub s) s u m w r k
settle_wild x sub (topic s u m w r) k e (y ∷ g) =
    held-settle x sub (topic s u m w r) (y ∷ g) k ∙ put_wild x y g sub s u m w r k e

-- A new subtopic that holds nothing
put_new :
    (x : Level) (sub t : Topic) (k : ClientId)
    → find x (subtopics t) ≡ none
    → ((g : List Level) → held g sub k ≡ none)
    → (g : List Level) → held g (with_subtopics t (put x sub (subtopics t))) k ≡ held g t k
unfolding held_below
put_new x sub (topic s u m w r) k absent bare [] = held_at_root (put x sub s) s u m w r k
put_new x sub (topic s u m w r) k absent bare (y ∷ g) =
    put_keeps x y g sub s u m w r k (rw absent (bare g))

-- Publishing a packet leaves every subscription of every client as it is.
pub held-publish :
    (name : List Level) (t : Topic) (p : Publish) (is_root : Bool) (k : ClientId) (g : List Level)
    → held g (publish name t p is_root).0 k ≡ held g t k
held-publish [] t p is_root k g = unfold publish in held-update_retained_message g t p k
held-publish (n ∷ ns) t p is_root k g = elim (Option-cases (find n (subtopics t))) [
  | inr (old, present) ↦
      rw (publish_found n ns t p is_root old present) (
        settle_keeps n (publish ns old p false).0 old t k present (held-publish ns old p false k) g)
  | inl absent ↦ elim (Bool-cases (p.retain_flag && not (is_empty p.payload))) [
    | inl kept ↦
        rw (publish_lost n ns t p is_root absent, kept)
          (put_new n (publish ns new p false).0 t k absent
            (λ g'. held-publish ns new p false k g' ∙ held-new g' k) g)
    | inr passed ↦ rw (publish_lost n ns t p is_root absent, passed)
  ]
]

module _ (x : Level) (s : Subtopics) (u m : Subscribers) (w : Subscriptions) (r : Option Publish)
    (c : ClientId) where
  -- Such a filter goes on to the subtopic of its first level, if there is one.
  unsubscribe_descends :
      (f : List Level)
      → plus_at_end (x ∷ f) ≡ true
      → unsubscribe (x ∷ f) (topic s u m w r) c ≡ (elim (find x s) [
        | none ↦ topic s u m w r
        | some sub ↦ settle x (unsubscribe f sub c) (topic s u m w r)
      ])
  unfolding unsubscribe plus_at_end
  unsubscribe_descends [] p = elim (Kind-cases (kind x)) [
    | inl e ↦ rw (e, unsubscribe)
    | inr (inl e) ↦ absurd (ground arith)
    | inr (inr e) ↦ rw (e, unsubscribe)
  ]
  unsubscribe_descends (l ∷ f) p = elim (Kind-cases (kind x)) [
    | inl e ↦ absurd (ground arith)
    | inr (inl e) ↦ absurd (ground arith)
    | inr (inr e) ↦ rw (e, unsubscribe)
  ]

plus_at_end_cases :
    (x : Level) (f : List Level)
    → plus_at_end (x ∷ f) ≡ true
    → (kind x ≡ single) ⊎ (plus_at_end f ≡ true)
unfolding plus_at_end
plus_at_end_cases x f p = ground arith

-- Unsubscribing from a filter whose walk ends at a `+`, as `+` and `a/+`, removes no subscription.
pub held-unsubscribe_plus :
    (f : List Level) (t : Topic) (c k : ClientId)
    → plus_at_end f ≡ true
    → (g : List Level) → held g (unsubscribe f t c) k ≡ held g t k
held-unsubscribe_plus [] t c k p g = unfold plus_at_end in cc
held-unsubscribe_plus (x ∷ f) (topic s u m w r) c k p g = elim (Option-cases (find x s)) [
  | inl absent ↦ rw (unsubscribe_descends x s u m w r c f p, absent)
  | inr (old, present) ↦
      rw (unsubscribe_descends x s u m w r c f p, present)
        (elim (plus_at_end_cases x f p) [
          | inl e ↦ settle_wild x (unsubscribe f old c) (topic s u m w r) k e g
          | inr q ↦
              settle_keeps x (unsubscribe f old c) old (topic s u m w r) k present
                (held-unsubscribe_plus f old c k q) g
        ])
]

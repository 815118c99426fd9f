-- ===== src/Topics/Held/Settled.antt =====
-- server/src/topic_handler/mod.rs: what is held after a node is put back, or cleaned away when it
-- is empty.
use t1_tp.Common.{
  ◌≡◌, refl, sym, ◌∙◌, true, List, [], ◌∷◌, Option, none, some, arith, same_text, same_text_iff,
  Option-cases, Bool-cases, inl, inr,
}
use t1_tp.Common.Map.{get, text_key, texts_key}
use t1_tp.Packets.Publish.{Publish}
use t1_tp.Topics.Names.{Level}
use t1_tp.Topics.Tree.{
  ClientId, SubscriptionData, Subscribers, Subscriptions, Topic, topic, Subtopics, nil, child,
  subtopics, with_subtopics, find, put, clean, clean_one, is_empty_topic,
}
use t1_tp.Topics.Subscribing.{settle}
use t1_tp.Topics.Held.{held, find-delete}

-- An empty node holds nothing.
pub held-is_empty :
    (f : List Level) (t : Topic) (k : ClientId) → is_empty_topic t ≡ true → held f t k ≡ none
unfolding held is_empty_topic get find
held-is_empty [] (topic nil [] m w r) k h = refl
held-is_empty [] (topic nil (a ∷ u) m w r) k h = cc
held-is_empty [] (topic (child n t s) u m w r) k h = cc
held-is_empty (x ∷ f) (topic (child n t s) u m w r) k h = cc
held-is_empty (x ∷ f) (topic nil (a ∷ u) m w r) k h = cc
held-is_empty (x ∷ f) (topic nil [] (a ∷ m) w r) k h = cc
held-is_empty (x ∷ f) (topic nil [] [] (a ∷ w) r) k h = cc
held-is_empty (x ∷ []) (topic nil [] [] [] r) k h = ground arith
held-is_empty (x ∷ l ∷ ls) (topic nil [] [] [] r) k h = ground arith

-- What is held at a subtopic's name.
unfoldable pub held_below : List Level → Option Topic → ClientId → Option SubscriptionData
held_below f none k = none
held_below f (some sub) k = held f sub k

pub held_below-clean_one :
    (name j : Level) (f : List Level) (s : Subtopics) (k : ClientId)
    → held_below f (find j (clean_one name s (find name s))) k ≡ held_below f (find j s) k
unfolding held_below clean_one
held_below-clean_one name j f s k = elim (Option-cases (find name s)) [
  | inl e ↦ rw e refl
  | inr (t, e) ↦ elim (Bool-cases (is_empty_topic t)) [
    | inl empty ↦
        rw (e, clean_one, empty, find-delete)
          (elim (Bool-cases (same_text name j)) [
            | inl same ↦
                rw (same, ← (same_text_iff name j).0 same, e, held_below)
                  (sym (held-is_empty f t k empty))
            | inr differs ↦ rw differs
          ])
    | inr full ↦ rw (e, clean_one, full) refl
  ]
]

pub held_below-clean :
    (cleaned : List Level) (j : Level) (f : List Level) (s : Subtopics) (k : ClientId)
    → held_below f (find j (clean cleaned s)) k ≡ held_below f (find j s) k
unfolding clean
held_below-clean [] j f s k = refl
held_below-clean (name ∷ cleaned) j f s k =
    held_below-clean cleaned j f (clean_one name s (find name s)) k
    ∙ held_below-clean_one name j f s k

-- Two nodes that differ only in their subtopics hold the same below a level if those do.
pub held_from_below :
    (y : Level) (g : List Level) (s s' : Subtopics) (u m : Subscribers) (w : Subscriptions)
    (r : Option Publish) (k : ClientId)
    → held_below g (find y s) k ≡ held_below g (find y s') k
    → held (y ∷ g) (topic s u m w r) k ≡ held (y ∷ g) (topic s' u m w r) k
unfolding held held_below
held_from_below y g s s' u m w r k h = ground arith

-- Putting a subtopic back, and cleaning it away if it is empty.
pub held-settle :
    (x : Level) (sub t : Topic) (g : List Level) (k : ClientId)
    → held g (settle x sub t) k ≡ held g (with_subtopics t (put x sub (subtopics t))) k
unfolding settle
held-settle x sub (topic s u m w r) [] k = unfold held in ground arith
held-settle x sub (topic s u m w r) (y ∷ g) k = elim (Bool-cases (is_empty_topic sub)) [
  | inl empty ↦ rw empty (
      held_from_below y g (clean (x ∷ []) (put x sub s)) (put x sub s) u m w r k
        (held_below-clean (x ∷ []) y g (put x sub s) k))
  | inr full ↦ rw full
]

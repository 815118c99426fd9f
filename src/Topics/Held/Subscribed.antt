-- ===== src/Topics/Held/Subscribed.antt =====
-- server/src/topic_handler/mod.rs: subscribing, over the map of subscriptions.
use t1_tp.Common.{
  ◌≡◌, refl, sym, ap, Bool, true, false, ◌&&◌, List, [], ◌∷◌, if◌then◌else◌, Option, none, some,
  arith, same_text, same_text_iff, Option-cases, inl, inr,
}
use t1_tp.Common.Map.{insert, text_key, texts_key, same_texts, same_texts_iff, get-insert}
use t1_tp.Packets.Publish.{Publish}
use t1_tp.Topics.Names.{Level, hash, single, multi, named, kind, Kind-cases}
use t1_tp.Topics.Tree.{
  ClientId, SubscriptionData, Subscribers, Subscriptions, Topic, topic, Subtopics, subtopics,
  with_subtopics, new, find, put,
}
use t1_tp.Topics.Subscribing.{
  subscribe, add_single_level_subscription, add_multi_level_subscription, entry,
}
use t1_tp.Topics.Held.{held, hash_ends, hash_ends_tail, find-put, held-new, kind_multi}

module _ (x : Level) (f : List Level) (s : Subtopics) (u m : Subscribers) (w : Subscriptions)
    (r : Option Publish) (c k : ClientId) (d : SubscriptionData) where
  single_case :
      (y : Level) (g : List Level)
      → kind x ≡ single
      → held (y ∷ g) (topic s u m (insert (x ∷ f) (insert c d (entry (x ∷ f) w)) w) r) k ≡ (
          if same_texts (x ∷ f) (y ∷ g) && same_text c k
          then some d
          else held (y ∷ g) (topic s u m w r) k)
  unfolding held
  single_case y g e = ground (
    arith,
    same_text_iff x y,
    same_texts_iff (x ∷ f) (y ∷ g),
    get-insert (x ∷ f) (y ∷ g) (insert c d (entry (x ∷ f) w)) w,
    get-insert c k d (entry (x ∷ f) w),
  )

  multi_case :
      (y : Level) (g : List Level)
      → kind x ≡ multi
      → hash_ends (x ∷ f) ≡ true
      → held (y ∷ g) (topic s u (insert c d m) w r) k ≡ (
          if same_texts (x ∷ f) (y ∷ g) && same_text c k
          then some d
          else held (y ∷ g) (topic s u m w r) k)
  unfolding held
  multi_case y g e h = ground (
    arith,
    same_text_iff x y,
    same_text_iff x hash,
    kind_multi x,
    kind_multi y,
    get-insert c k d m,
  )

  named_case :
      (y : Level) (g : List Level) (sub : Topic)
      → kind x ≡ named
      → held g sub k ≡ (
          if same_texts f g && same_text c k
          then some d
          else elim (find x s) [ none ↦ none | some old ↦ held g old k ])
      → held (y ∷ g) (topic (put x sub s) u m w r) k ≡ (
          if same_texts (x ∷ f) (y ∷ g) && same_text c k
          then some d
          else held (y ∷ g) (topic s u m w r) k)
  unfolding held
  named_case y g sub e below = ground (arith, same_text_iff x y, find-put x y sub s)

module _ (x : Level) (f : List Level) (t : Topic) (c : ClientId) (d : SubscriptionData)
    (is_root : Bool) where
  subscribe_single :
      kind x ≡ single
      → subscribe (x ∷ f) t c d is_root ≡ add_single_level_subscription t (x ∷ f) c d is_root
  unfolding subscribe
  subscribe_single e = rw (e, subscribe)

  subscribe_multi :
      kind x ≡ multi
      → subscribe (x ∷ f) t c d is_root ≡ add_multi_level_subscription t (x ∷ f) c d is_root
  unfolding subscribe
  subscribe_multi e = rw (e, subscribe)

  -- The subtopic that the walk goes on to: the one that is there, or a new one.
  subscribe_named :
      kind x ≡ named
      → (old : Topic) × ((elim (find x (subtopics t)) [ none ↦ new | some sub ↦ sub ]) ≡ old)
        × ((subscribe (x ∷ f) t c d is_root).0
            ≡ with_subtopics t (put x (subscribe f old c d false).0 (subtopics t)))
  unfolding subscribe
  subscribe_named e = elim (Option-cases (find x (subtopics t))) [
    | inl absent ↦ (new, rw absent refl, rw (e, subscribe, absent))
    | inr (old, present) ↦ (old, rw present refl, rw (e, subscribe, present))
  ]

-- What the subtopic that the walk goes on to held before.
held_old :
    (g : List Level) (found : Option Topic) (old : Topic) (k : ClientId)
    → (elim found [ none ↦ new | some sub ↦ sub ]) ≡ old
    → held g old k ≡ (elim found [ none ↦ none | some sub ↦ held g sub k ])
held_old g none old k e = rw (← e) (held-new g k)
held_old g (some sub) old k e = ap (λ t. held g t k) (sym e)

-- After a subscription the client holds it, and every other subscription is what it was.
pub held-subscribe :
    (f g : List Level) (t : Topic) (c k : ClientId) (d : SubscriptionData) (is_root : Bool)
    → hash_ends f ≡ true
    → held g (subscribe f t c d is_root).0 k
      ≡ (if same_texts f g && same_text c k then some d else held g t k)
unfolding add_single_level_subscription add_multi_level_subscription
held-subscribe [] [] (topic s u m w r) c k d is_root h = unfold subscribe held in get-insert c k d u
held-subscribe [] (y ∷ g) (topic s u m w r) c k d is_root h = unfold subscribe held in refl
held-subscribe (x ∷ f) [] (topic s u m w r) c k d is_root h = unfold subscribe held in ground arith
held-subscribe (x ∷ f) (y ∷ g) (topic s u m w r) c k d is_root h = elim (Kind-cases (kind x)) [
  | inl e ↦
      rw (subscribe_single x f (topic s u m w r) c d is_root e)
        (single_case x f s u m w r c k d y g e)
  | inr (inl e) ↦
      rw (subscribe_multi x f (topic s u m w r) c d is_root e)
        (multi_case x f s u m w r c k d y g e h)
  | inr (inr e) ↦
      let (old, found, step) = subscribe_named x f (topic s u m w r) c d is_root e in
      rw step (
        named_case x f s u m w r c k d y g (subscribe f old c d false).0 e (
          rw (← held_old g (find x s) old k found)
            (held-subscribe f g old c k d false (hash_ends_tail x f h))))
]

-- ===== src/Topics/Held/Unsubscribed.antt =====
-- server/src/topic_handler/mod.rs: unsubscribing, over the map of subscriptions.
use t1_tp.Common.{
  ◌≡◌, refl, sym, ◌∙◌, Bool, true, false, ◌&&◌, List, [], ◌∷◌, if◌then◌else◌, Option, none, some,
  arith, same_text, same_text_iff, Option-cases, inl, inr, is_empty,
}
use t1_tp.Common.Map.{
  get, remove, text_key, texts_key, same_texts, same_texts_iff, get-nil, get-insert, get-remove,
}
use t1_tp.Packets.Publish.{Publish}
use t1_tp.Topics.Names.{Level, hash, single, multi, named, kind, Kind-cases}
use t1_tp.Topics.Tree.{
  ClientId, SubscriptionData, Subscribers, Subscriptions, Topic, topic, Subtopics, find, put,
}
use t1_tp.Topics.Subscribing.{unsubscribe, settle, remove_single_level_subscription, entry}
use t1_tp.Topics.Held.{held, hash_ends, hash_ends_tail, find-put, kind_multi}
use t1_tp.Topics.Held.Settled.{held-settle}

-- A walk that comes to `+` as the last level before any other wildcard.
unfoldable pub plus_at_end : List Level → Bool
plus_at_end [] = false
plus_at_end (x ∷ f) = elim (kind x) [ single ↦ is_empty f | multi ↦ false | named ↦ plus_at_end f ]

drop_entry :
    (f g : List Level) (c k : ClientId) (w : Subscriptions)
    → get k (entry g (remove_single_level_subscription f c w))
      ≡ (if same_texts f g && same_text c k then none else get k (entry g w))
unfolding remove_single_level_subscription
drop_entry f g c k w = elim (Option-cases (get f w)) [
  | inl absent ↦ ground (arith, same_texts_iff f g, get-nil {V = SubscriptionData} k)
  | inr (subs, present) ↦ ground (
    arith,
    same_texts_iff f g,
    get-nil {V = SubscriptionData} k,
    get-remove c k subs,
    get-remove f g w,
    get-insert f g (remove c subs) w,
  )
]

module _ (x : Level) (f : List Level) (s : Subtopics) (u m : Subscribers) (w : Subscriptions)
    (r : Option Publish) (c k : ClientId) (y : Level) (g : List Level) where
  drop_single :
      kind x ≡ single
      → held (y ∷ g) (topic s u m (remove_single_level_subscription (x ∷ f) c w) r) k ≡ (
          if same_texts (x ∷ f) (y ∷ g) && same_text c k
          then none
          else held (y ∷ g) (topic s u m w r) k)
  unfolding held
  drop_single e = ground (arith, same_text_iff x y, drop_entry (x ∷ f) (y ∷ g) c k w)

  drop_multi :
      kind x ≡ multi
      → hash_ends (x ∷ f) ≡ true
      → held (y ∷ g) (topic s u (remove c m) w r) k ≡ (
          if same_texts (x ∷ f) (y ∷ g) && same_text c k
          then none
          else held (y ∷ g) (topic s u m w r) k)
  unfolding held
  drop_multi e h =
      ground (
        arith,
        same_text_iff x y,
        same_text_iff x hash,
        kind_multi x,
        kind_multi y,
        get-remove c k m,
      )

  drop_named :
      (sub old : Topic)
      → kind x ≡ named
      → find x s ≡ some old
      → held g sub k ≡ (if same_texts f g && same_text c k then none else held g old k)
      → held (y ∷ g) (topic (put x sub s) u m w r) k ≡ (
          if same_texts (x ∷ f) (y ∷ g) && same_text c k
          then none
          else held (y ∷ g) (topic s u m w r) k)
  unfolding held
  drop_named sub old e present below = ground (arith, same_text_iff x y, find-put x y sub s)

  -- Nothing is held below a level that has no subtopic.
  drop_absent :
      kind x ≡ named
      → find x s ≡ none
      → held (y ∷ g) (topic s u m w r) k ≡ (
          if same_texts (x ∷ f) (y ∷ g) && same_text c k
          then none
          else held (y ∷ g) (topic s u m w r) k)
  unfolding held
  drop_absent e absent = ground (arith, same_text_iff x y)

module _ (x : Level) (f : List Level) (s : Subtopics) (u m : Subscribers) (w : Subscriptions)
    (r : Option Publish) (c : ClientId) where
  unsubscribe_single :
      (l : Level)
      → kind x ≡ single
      → unsubscribe (x ∷ l ∷ f) (topic s u m w r) c
        ≡ topic s u m (remove_single_level_subscription (x ∷ l ∷ f) c w) r
  unfolding unsubscribe
  unsubscribe_single l e = rw (e, unsubscribe)

  unsubscribe_multi :
      kind x ≡ multi → unsubscribe (x ∷ f) (topic s u m w r) c ≡ topic s u (remove c m) w r
  unfolding unsubscribe
  unsubscribe_multi e = rw (e, unsubscribe)

  unsubscribe_absent :
      kind x ≡ named → find x s ≡ none → unsubscribe (x ∷ f) (topic s u m w r) c ≡ topic s u m w r
  unfolding unsubscribe
  unsubscribe_absent e absent = rw (e, unsubscribe, absent)

  unsubscribe_present :
      (sub : Topic)
      → kind x ≡ named
      → find x s ≡ some sub
      → unsubscribe (x ∷ f) (topic s u m w r) c ≡ settle x (unsubscribe f sub c) (topic s u m w r)
  unfolding unsubscribe
  unsubscribe_present sub e present = rw (e, unsubscribe, present)

plus_at_end_single :
    (x l : Level) (f : List Level)
    → kind x ≡ single
    → (plus_at_end (x ∷ []) ≡ true) × (plus_at_end (x ∷ l ∷ f) ≡ false)
unfolding plus_at_end
plus_at_end_single x l f e = (rw (e, plus_at_end), rw (e, plus_at_end))

plus_at_end_named :
    (x : Level) (f : List Level) → kind x ≡ named → plus_at_end (x ∷ f) ≡ plus_at_end f
unfolding plus_at_end
plus_at_end_named x f e = rw (e, plus_at_end)

drop_plus :
    (x y : Level) (f g : List Level) (s : Subtopics) (u m : Subscribers) (w : Subscriptions)
    (r : Option Publish) (c k : ClientId)
    → kind x ≡ single
    → plus_at_end (x ∷ f) ≡ false
    → held (y ∷ g) (unsubscribe (x ∷ f) (topic s u m w r) c) k ≡ (
        if same_texts (x ∷ f) (y ∷ g) && same_text c k
        then none
        else held (y ∷ g) (topic s u m w r) k)
drop_plus x y [] g s u m w r c k e p = cc ((plus_at_end_single x x [] e).0)
drop_plus x y (l ∷ f) g s u m w r c k e p =
    rw (unsubscribe_single x f s u m w r c l e) (drop_single x (l ∷ f) s u m w r c k y g e)

held-unsubscribe_here :
    (x : Level) (f : List Level) (t : Topic) (c k : ClientId)
    → held [] (unsubscribe (x ∷ f) t c) k ≡ held [] t k
unfolding held unsubscribe settle
held-unsubscribe_here x f (topic s u m w r) c k = ground arith

-- After unsubscribing the client does not hold the filter, and every other subscription is what
-- it was, for a filter whose walk does not end at a `+`.
pub held-unsubscribe :
    (f g : List Level) (t : Topic) (c k : ClientId)
    → hash_ends f ≡ true
    → plus_at_end f ≡ false
    → held g (unsubscribe f t c) k ≡ (if same_texts f g && same_text c k then none else held g t k)
held-unsubscribe [] [] (topic s u m w r) c k h p = unfold unsubscribe held in get-remove c k u
held-unsubscribe [] (y ∷ g) (topic s u m w r) c k h p = unfold unsubscribe held in refl
held-unsubscribe (x ∷ f) [] t c k h p = held-unsubscribe_here x f t c k
held-unsubscribe (x ∷ f) (y ∷ g) (topic s u m w r) c k h p = elim (Kind-cases (kind x)) [
  | inl e ↦ drop_plus x y f g s u m w r c k e p
  | inr (inl e) ↦ rw (unsubscribe_multi x f s u m w r c e) (drop_multi x f s u m w r c k y g e h)
  | inr (inr e) ↦ elim (Option-cases (find x s)) [
    | inl absent ↦
        rw (unsubscribe_absent x f s u m w r c e absent)
          (drop_absent x f s u m w r c k y g e absent)
    | inr (old, present) ↦
        rw (unsubscribe_present x f s u m w r c old e present, held-settle)
          (drop_named x f s u m w r c k y g (unsubscribe f old c) old e present (
            held-unsubscribe f g old c k (hash_ends_tail x f h)
              (sym (plus_at_end_named x f e) ∙ p)))
  ]
]

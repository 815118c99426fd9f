-- ===== src/Topics/Delivery.antt =====
-- server/src/topic_handler/mod.rs: which clients get what is published under a name.
use t1_tp.Common.{
  ◌≡◌, refl, sym, ap, ◌⊎◌, inl, inr, Bool, true, false, not, ◌&&◌, List, [], ◌∷◌, ◌++◌,
  if◌then◌else◌, Option, some, arith, same_text, same_text_iff, is_empty, Option-cases, Bool-cases,
}
use t1_tp.Common.Map.{get, same_texts, same_texts_iff, text_key, texts_key}
use t1_tp.Packets.Publish.{Publish, set_max_qos, set_retain_flag}
use t1_tp.Topics.Names.{
  Level, single, multi, named, kind, Kind-cases, starts_with_unmatch, topic_filter_matches,
}
use t1_tp.Topics.Tree.{
  ClientId, SubscriptionData, Subscribers, Subscriptions, Topic, topic, Subtopics, subtopics,
  singlelevel_subscriptions, multilevel_subscribers, find,
}
use t1_tp.Topics.Subscribing.{entry}
use t1_tp.Topics.Publishing.{
  Message, publish, send_publish, current_matching_subs, matching_single_level_subs,
}
use t1_tp.Topics.Held.{held}
use t1_tp.Topics.Matching.{serves}

-- `x` stands in the list.
abbrev pub Among : {A : Type 0} → A → List A → Type 0
Among x [] = ⊥
Among x (y ∷ l) = (x ≡ y) ⊎ Among x l

pub Among-left : {A : Type 0} (x : A) (l m : List A) → Among x l → Among x (l ++ m)
Among-left x [] m h = absurd h
Among-left x (y ∷ l) m (inl e) = inl e
Among-left x (y ∷ l) m (inr h) = inr (Among-left x l m h)

pub Among-right : {A : Type 0} (x : A) (l m : List A) → Among x m → Among x (l ++ m)
Among-right x [] m h = h
Among-right x (y ∷ l) m h = inr (Among-right x l m h)

get-Among :
    (k : ClientId) (d : SubscriptionData) (u : Subscribers) → get k u ≡ some d → Among (k, d) u
unfolding get
get-Among k d [] h = cc
get-Among k d ((j, e) ∷ u) h = elim (Bool-cases (same_text j k)) [
  | inl same ↦ inl (ground (arith, same_text_iff j k))
  | inr differs ↦ inr (get-Among k d u (ground arith))
]

abbrev pub message : Publish → ClientId → SubscriptionData → Message
message p k d = record { client_id = k; packet = set_max_qos p d.qos }

send_publish-Among :
    (p : Publish) (k : ClientId) (d : SubscriptionData) (u : Subscribers)
    → Among (k, d) u
    → Among (message p k d) (send_publish p u)
unfolding send_publish
send_publish-Among p k d [] h = absurd h
send_publish-Among p k d ((j, e) ∷ u) (inl same) =
    inl (ap (λ (x : ClientId × SubscriptionData). message p x.0 x.1) same)
send_publish-Among p k d ((j, e) ∷ u) (inr h) = inr (send_publish-Among p k d u h)

entry_same :
    (f g : List Level) (subs : Subscribers) (w : Subscriptions)
    → same_texts g f ≡ true
    → entry f ((g, subs) ∷ w) ≡ subs
unfolding get
entry_same f g subs w e = rw (e, entry, get)

entry_other :
    (f g : List Level) (subs : Subscribers) (w : Subscriptions)
    → same_texts g f ≡ false
    → entry f ((g, subs) ∷ w) ≡ entry f w
unfolding get
entry_other f g subs w e = rw (e, entry, get)

-- The filters that a level of the tree holds itself: the others are held below.
entry-matching :
    (f : List Level) (l : Level) (ls : List Level) (w : Subscriptions) (k : ClientId)
    (d : SubscriptionData)
    → get k (entry f w) ≡ some d
    → topic_filter_matches f (l ∷ ls) ≡ true
    → Among (k, d) (matching_single_level_subs (l ∷ ls) w)
unfolding matching_single_level_subs get
entry-matching f l ls [] k d h m = cc
entry-matching f l ls ((g, subs) ∷ w) k d h m = elim (Bool-cases (same_texts g f)) [
  | inl same ↦
      rw ((same_texts_iff g f).0 same, m)
        (Among-left (k, d) subs _ (get-Among k d subs (rw (entry_same f g subs w same) at h)))
  | inr differs ↦
      Among-right (k, d) (if topic_filter_matches g (l ∷ ls) then subs else []) _
        (entry-matching f l ls w k d (rw (entry_other f g subs w differs) at h) m)
]

-- The wildcards at the root do not stand for names that begin with `$`.
abbrev pub begins_wild : List Level → Bool
begins_wild [] = false
begins_wild (x ∷ f) = elim (kind x) [ single ↦ true | multi ↦ true | named ↦ false ]

abbrev pub hidden : Bool → List Level → List Level → Bool
hidden is_root f name = is_root && starts_with_unmatch name && begins_wild f

module _ (s : Subtopics) (u m : Subscribers) (w : Subscriptions) (r : Option Publish) (k : ClientId)
    (d : SubscriptionData) (is_root : Bool) where
  Among-wild :
      (name : List Level)
      → is_root && starts_with_unmatch name ≡ false
      → Among (k, d) (matching_single_level_subs name w ++ m)
      → Among (k, d) (current_matching_subs name (topic s u m w r) is_root)
  unfolding current_matching_subs
  Among-wild name open_root h = rw open_root (Among-left (k, d) _ _ h)

  Among-here : Among (k, d) u → Among (k, d) (current_matching_subs [] (topic s u m w r) is_root)
  unfolding current_matching_subs
  Among-here h = Among-right (k, d) _ u h

-- What a node sends itself goes out before what is sent below it.
publish_sends :
    (n : Level) (ns : List Level) (t : Topic) (p : Publish) (is_root : Bool) (k : ClientId)
    (d : SubscriptionData)
    → Among (k, d) (current_matching_subs (n ∷ ns) t is_root)
    → Among (message (set_retain_flag p false) k d) (publish (n ∷ ns) t p is_root).1
unfolding publish
publish_sends n ns t p is_root k d h =
    let sent = send_publish-Among (set_retain_flag p false) k d _ h in
    elim (Option-cases (find n (subtopics t))) [
      | inr (old, present) ↦ rw (present, publish) (Among-left _ _ _ sent)
      | inl absent ↦ elim (Bool-cases (p.retain_flag && not (is_empty p.payload))) [
        | inl kept ↦ rw (absent, publish, kept) (Among-left _ _ _ sent)
        | inr passed ↦ rw (absent, publish, passed) sent
      ]
    ]

publish_below :
    (n : Level) (ns : List Level) (t sub : Topic) (p : Publish) (is_root : Bool) (msg : Message)
    → find n (subtopics t) ≡ some sub
    → Among msg (publish ns sub p false).1
    → Among msg (publish (n ∷ ns) t p is_root).1
unfolding publish
publish_below n ns t sub p is_root msg present h =
    rw (present, publish) (Among-right msg _ (publish ns sub p false).1 h)

module _ (p : Publish) (k : ClientId) (d : SubscriptionData) where
  abbrev Gets : List Level → Topic → Bool → Type 0
  Gets name t is_root = Among (message (set_retain_flag p false) k d) (publish name t p is_root).1

  -- What the kinds of the first level say of a subscription and of a filter that is served.
  step_single :
      (x : Level) (f : List Level) (n : Level) (ns : List Level) (t : Topic)
      → kind x ≡ single
      → held (x ∷ f) t k ≡ some d
      → serves (x ∷ f) (n ∷ ns) ≡ true
      → (get k (entry (x ∷ f) (singlelevel_subscriptions t)) ≡ some d)
        × (topic_filter_matches (x ∷ f) (n ∷ ns) ≡ true)
  unfolding held serves
  step_single x f n ns (topic s u m w r) e h v = (rw (e, held) at h, rw (e, serves) at v)

  step_multi :
      (x : Level) (f name : List Level) (t : Topic)
      → kind x ≡ multi
      → held (x ∷ f) t k ≡ some d
      → serves (x ∷ f) name ≡ true
      → get k (multilevel_subscribers t) ≡ some d
  unfolding held serves
  step_multi x [] name (topic s u m w r) e h v = rw (e, held) at h
  step_multi x (l ∷ ls) [] (topic s u m w r) e h v = ground arith
  step_multi x (l ∷ ls) (n ∷ ns) (topic s u m w r) e h v = ground arith

  step_named :
      (x : Level) (f : List Level) (n : Level) (ns : List Level) (t : Topic)
      → kind x ≡ named
      → held (x ∷ f) t k ≡ some d
      → serves (x ∷ f) (n ∷ ns) ≡ true
      → (sub : Topic) × (find n (subtopics t) ≡ some sub)
        × (held f sub k ≡ some d)
        × (serves f ns ≡ true)
  unfolding held serves
  step_named x f n ns (topic s u m w r) e h v = elim (Option-cases (find x s)) [
    | inl absent ↦ ground arith
    | inr (sub, present) ↦
        let same : x ≡ n = ground (arith, same_text_iff x n) in
        (sub, rw (sym same, present), ground arith, ground (arith, same_text_iff x n))
  ]

  -- A client that holds a subscription to a filter that is served for the name gets the packet, without
  -- its retain flag and at the level of the subscription at most, unless, at the root, the filter begins
  -- with a wildcard and the name with `$`.
  pub publish-delivers :
      (f name : List Level) (t : Topic) (is_root : Bool)
      → held f t k ≡ some d
      → serves f name ≡ true
      → hidden is_root f name ≡ false
      → Gets name t is_root
  unfolding serves
  publish-delivers [] [] (topic s u m w r) is_root h v open_root =
      unfold publish held in
      send_publish-Among (set_retain_flag p false) k d _
        (Among-here s u m w r k d is_root (get-Among k d u h))
  publish-delivers [] (n ∷ ns) t is_root h v open_root = cc
  publish-delivers (x ∷ f) [] (topic s u m w r) is_root h v open_root = elim (Kind-cases (kind x)) [
    | inl is_single ↦ absurd (ground arith)
    | inr (inl is_multi) ↦
        unfold publish in
        send_publish-Among (set_retain_flag p false) k d _ (
          Among-wild s u m w r k d is_root [] (ground arith) (
            Among-right (k, d) _ m
              (get-Among k d m (step_multi x f [] (topic s u m w r) is_multi h v))))
    | inr (inr is_named) ↦ absurd (ground arith)
  ]
  publish-delivers (x ∷ f) (n ∷ ns) (topic s u m w r) is_root h v open_root =
      elim (Kind-cases (kind x)) [
        | inl is_single ↦
            let (got, matched) = step_single x f n ns (topic s u m w r) is_single h v in
            publish_sends n ns (topic s u m w r) p is_root k d (
              Among-wild s u m w r k d is_root (n ∷ ns) (ground arith)
                (Among-left (k, d) _ m (entry-matching (x ∷ f) n ns w k d got matched)))
        | inr (inl is_multi) ↦ publish_sends n ns (topic s u m w r) p is_root k d (
            Among-wild s u m w r k d is_root (n ∷ ns) (ground arith) (
              Among-right (k, d) _ m
                (get-Among k d m (step_multi x f (n ∷ ns) (topic s u m w r) is_multi h v))))
        | inr (inr is_named) ↦
            let (sub, present, below, served) =
              step_named x f n ns (topic s u m w r) is_named h v in
            publish_below n ns (topic s u m w r) sub p is_root _ present
              (publish-delivers f ns sub false below served refl)
      ]

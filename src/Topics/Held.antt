-- ===== src/Topics/Held.antt =====
-- server/src/topic_handler/mod.rs: what the tree of topics stands for, as a map from filters and
-- clients to subscriptions.
pub mod Subscribed
pub mod Settled
pub mod Unsubscribed
pub mod Kept
use t1_tp.Common.{
  ℕ, ◌≡◌, refl, Bool, true, false, not, ◌&&◌, List, [], ◌∷◌, ◌++◌, if◌then◌else◌, Option, none,
  some, arith, same_text, same_text_iff,
}
use t1_tp.Common.Map.{Map, get, insert, remove, text_key, texts_key, same_texts, get-insert}
use t1_tp.Topics.Names.{Level, hash, Kind, single, multi, named, kind}
use t1_tp.Topics.Tree.{
  ClientId, SubscriptionData, Topic, topic, Subtopics, nil, child, new, find, put, delete, clean,
  clean_one, is_empty_topic,
}
use t1_tp.Topics.Subscribing.{entry}

-- The subscription of a client to a filter, where the source keeps it.
unfoldable pub held : List Level → Topic → ClientId → Option SubscriptionData
held [] (topic s u m w r) client = get client u
held (current ∷ rest) (topic s u m w r) client = elim (kind current) [
  | single ↦ get client (entry (current ∷ rest) w)
  | multi ↦ elim rest [ [] ↦ get client m | l ∷ ls ↦ none ]
  | named ↦ elim (find current s) [ none ↦ none | some sub ↦ held rest sub client ]
]

-- A `#` is the last level, as in every filter that is accepted.
abbrev pub hash_ends : List Level → Bool
hash_ends [] = true
hash_ends (l ∷ []) = true
hash_ends (l ∷ m ∷ ls) = not (same_text l hash) && hash_ends (m ∷ ls)

pub find-put :
    (name j : Level) (t : Topic) (s : Subtopics)
    → find j (put name t s) ≡ (if same_text name j then some t else find j s)
unfolding find put
find-put name j t nil = refl
find-put name j t (child n u rest) =
    ground
      (arith, same_text_iff n name, same_text_iff n j, same_text_iff name j, find-put name j t rest)

pub find-delete :
    (name j : Level) (s : Subtopics)
    → find j (delete name s) ≡ (if same_text name j then none else find j s)
unfolding find delete
find-delete name j nil = ground arith
find-delete name j (child n u rest) =
    ground (
      arith,
      same_text_iff n name,
      same_text_iff n j,
      same_text_iff name j,
      find-delete name j rest,
    )

pub held-new : (f : List Level) (k : ClientId) → held f new k ≡ none
unfolding held get find
held-new [] k = refl
held-new (x ∷ []) k = ground arith
held-new (x ∷ y ∷ q) k = ground arith

pub kind_multi : (x : Level) → kind x ≡ multi → x ≡ hash
unfolding kind
kind_multi x h = ground (arith, same_text_iff x hash)

pub hash_ends_tail : (l : Level) (f : List Level) → hash_ends (l ∷ f) ≡ true → hash_ends f ≡ true
hash_ends_tail l [] h = refl
hash_ends_tail l (x ∷ f) h = ground arith

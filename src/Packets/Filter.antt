-- ===== src/Packets/Filter.antt =====
-- common/packets/src/topic_filter.rs: a topic filter, and the check of its name.
pub mod Laws
use t1_tp.Common.{
  ℕ, ◌+◌, ◌-◌, Bool, true, false, not, ◌&&◌, ◌||◌, List, [], ◌∷◌, ◌++◌, ltb, ◌==◌, if◌then◌else◌,
  length, same_text, is_empty, contains, starts_with, ends_with, count_char, count_matches,
}
use t1_tp.Packets.Error.{PacketResult, ok, err, ◌>>=◌, ◌>>◌, invalid_topic_name}
use t1_tp.Packets.Header.{QosLevel, qos_byte}
use t1_tp.Packets.Field
use t1_tp.Packets.Field.{new_from_string}

pub record TopicFilter : Type 0 where
  pub name : List ℕ
  pub qos : QosLevel

-- The number of `+` that no slash precedes, but for one that begins the name; the source writes
-- the comparison twice.
stray_plus : List ℕ → Bool
stray_plus name =
    let leading : ℕ = if starts_with (b'+' ∷ b'/' ∷ []) name then 1 else 0 in
    not (count_char b'+' name - leading == count_matches (b'/' ∷ b'+' ∷ []) name)

-- `check_valid_topic_name`
unfoldable pub check_valid_topic_name : List ℕ → PacketResult (Unit {0})
unfolding stray_plus
check_valid_topic_name name =
    if is_empty name
    then err invalid_topic_name
    else if not (same_text name (b'#' ∷ []))
        && (ltb 1 (count_char b'#' name)
            || (contains b'#' name && not (ends_with (b'/' ∷ b'#' ∷ []) name)))
    then err invalid_topic_name
    else if not (same_text name (b'+' ∷ [])) && (stray_plus name || stray_plus name)
    then err invalid_topic_name
    else ok tt

-- `TopicFilter::new`
unfoldable pub new : List ℕ → QosLevel → PacketResult TopicFilter
new name qos = do
  check_valid_topic_name name
  field ← new_from_string name
  ok (record { name = field; qos = qos })

-- `TopicFilter::encode`
unfoldable pub encode : TopicFilter → List ℕ
encode t = Field.encode t.name ++ (qos_byte t.qos ∷ [])

-- `TopicFilter::len`
unfoldable pub len : TopicFilter → ℕ
len t = length (Field.encode t.name) - 2 + 1

-- `TopicFilter::set_max_qos`
unfoldable pub set_max_qos : TopicFilter → QosLevel → TopicFilter
set_max_qos t max_qos =
    if ltb (qos_byte max_qos) (qos_byte t.qos) then record t { qos = max_qos } else t

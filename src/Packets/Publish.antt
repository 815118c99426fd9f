-- ===== src/Packets/Publish.antt =====
-- common/packets/src/publish/mod.rs, and `Publish::new`: the PUBLISH packet.
pub mod Encoding
pub mod Decoding
pub mod Shape
pub mod RoundTrip
pub mod Reading
use t1_tp.Common.{
  ℕ, Bool, true, false, not, ◌&&◌, ◌||◌, List, ltb, if◌then◌else◌, Option, none, some, contains,
}
use t1_tp.Packets.Error.{PacketResult, ok, err, ◌>>=◌, ◌>>◌, other}
use t1_tp.Packets.Header.{QosLevel, qos_level0, qos_level1, qos_byte, same_qos}

pub record Publish : Type 0 where
  pub packet_id : Option ℕ
  pub topic_name : List ℕ
  pub qos : QosLevel
  pub retain_flag : Bool
  pub dup_flag : Bool
  pub payload : List ℕ

-- `Publish::set_max_qos`
unfoldable pub set_max_qos : Publish → QosLevel → Publish
set_max_qos p max_qos = record p {
  qos = if ltb (qos_byte max_qos) (qos_byte p.qos) then max_qos else p.qos;
  dup_flag = if same_qos max_qos qos_level0 then false else p.dup_flag;
}

-- `Publish::set_dup`, `set_retain_flag` and `set_packet_id`
abbrev pub set_dup : Publish → Bool → Publish
set_dup p dup = record p { dup_flag = dup }

abbrev pub set_retain_flag : Publish → Bool → Publish
set_retain_flag p retain = record p { retain_flag = retain }

abbrev pub set_packet_id : Publish → ℕ → Publish
set_packet_id p packet_id = record p { packet_id = some packet_id }

abbrev pub is_some {ℓ} : {A : Type ℓ} → Option A → Bool
is_some none = false
is_some (some a) = true

-- `check_topic_name_cannot_contain_wildcard_characters`
unfoldable pub check_no_wildcards : List ℕ → PacketResult (Unit {0})
check_no_wildcards topic_name =
    if contains b'+' topic_name || contains b'#' topic_name then err other else ok tt

-- `Publish::new`
unfoldable pub new : Bool → QosLevel → Bool → List ℕ → List ℕ → Option ℕ → PacketResult Publish
unfolding check_no_wildcards
new dup_flag qos retain_flag topic_name topic_message packet_identifier =
    if is_some packet_identifier && same_qos qos qos_level0
    then err other
    else if not (is_some packet_identifier) && same_qos qos qos_level1
    then err other
    else do
      check_no_wildcards topic_name
      ok (record {
        packet_id = packet_identifier;
        topic_name = topic_name;
        qos = qos;
        retain_flag = retain_flag;
        dup_flag = dup_flag;
        payload = topic_message;
      })

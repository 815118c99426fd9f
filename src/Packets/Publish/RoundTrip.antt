-- ===== src/Packets/Publish/RoundTrip.antt =====
-- common/packets/src/publish: `encode` against `read_from`.
use t1_tp.Common.{
  ℕ, ◌+◌, ◌≤◌, ◌≡◌, refl, sym, ap, ◌∙◌, List, ◌∷◌, ◌++◌, length, Option, none, some, arith,
  append_assoc, length-append, is_empty, contains, ◌||◌, false,
}
use t1_tp.Packets.Error.{IoError, ok}
use t1_tp.Packets.Stream.Laws.{read_u16_or_zero-be_bytes}
use t1_tp.Packets.Length.Framing.{from_uncoded_fits, read_remaining_bytes-encode}
use t1_tp.Packets.Header.{QosLevel, qos_level0, qos_level1, qos_level2}
use t1_tp.Packets.Length
use t1_tp.Packets.Length.{max_variable_length, from_uncoded, from_encoded, read_remaining_bytes}
use t1_tp.Packets.Field
use t1_tp.Packets.Field.{is_utf8, new_from_string, new_from_stream}
use t1_tp.Packets.Field.Laws.{IsField, new_from_stream-encode}
use t1_tp.Packets.Publish.{Publish}
use t1_tp.Packets.Publish.Encoding.{id_bytes, variable_header, fixed_header, encode}
use t1_tp.Packets.Publish.Decoding.{verify_topic_name, verify_packet_id, read_payload, read_from}
use t1_tp.Packets.Publish.Shape.{IsSendable, IsIdentified, arriving, arriving_id, control, flags}

-- The packet behind its fixed header.
abbrev pub body : Publish → List ℕ
body p = Field.encode p.topic_name ++ (id_bytes p.packet_id p.qos ++ p.payload)

pub length-body :
    (p : Publish)
    → length (body p)
      ≡ 2 + length p.topic_name + length (id_bytes p.packet_id p.qos) + length p.payload
unfolding Field.encode
length-body p = omega (
  arith,
  length-append p.topic_name (id_bytes p.packet_id p.qos ++ p.payload),
  length-append (id_bytes p.packet_id p.qos) p.payload,
)

variable_header-ok :
    (p : Publish)
    → IsSendable p
    → variable_header p ≡ ok (Field.encode p.topic_name ++ id_bytes p.packet_id p.qos)
unfolding variable_header new_from_string
variable_header-ok p h = ground arith

pub encode-body :
    (p : Publish)
    → IsSendable p
    → encode p ≡ ok ((control p ∷ Length.encode (length (body p))) ++ body p)
unfolding encode fixed_header
encode-body p h =
    let header : List ℕ = Field.encode p.topic_name ++ id_bytes p.packet_id p.qos in
    let whole : header ++ p.payload ≡ body p =
      append_assoc (Field.encode p.topic_name) (id_bytes p.packet_id p.qos) p.payload in
    let size : length header + length p.payload ≡ length (body p) =
      sym (length-append header p.payload) ∙ ap length whole in
    let fits : length (body p) ≤ max_variable_length = omega (arith, length-body p, h.fits) in
    rw (variable_header-ok p h, size, from_uncoded_fits _ fits)
      (ap (λ t. ok ((control p ∷ Length.encode (length (body p))) ++ t)) whole)

verify_packet_id-id_bytes :
    (q : QosLevel) (id : Option ℕ) (rest : List ℕ)
    → IsIdentified q id
    → verify_packet_id (id_bytes id q ++ rest) q ≡ ok (arriving_id q id, rest)
unfolding verify_packet_id
verify_packet_id-id_bytes qos_level0 none rest h = refl
verify_packet_id-id_bytes qos_level0 (some n) rest h = refl
verify_packet_id-id_bytes qos_level1 none rest h = absurd h
verify_packet_id-id_bytes qos_level1 (some n) rest h =
    rw (read_u16_or_zero-be_bytes n rest h.1) (ground arith)
verify_packet_id-id_bytes qos_level2 none rest h = absurd h
verify_packet_id-id_bytes qos_level2 (some n) rest h =
    rw (read_u16_or_zero-be_bytes n rest h.1) (ground arith)

verify_topic_name-encode :
    (topic rest : List ℕ)
    → IsField topic
    → is_empty topic ≡ false
    → contains b'+' topic || contains b'#' topic ≡ false
    → verify_topic_name (Field.encode topic ++ rest) ≡ ok (topic, rest)
unfolding verify_topic_name
verify_topic_name-encode topic rest field named plain =
    rw (new_from_stream-encode topic rest field, verify_topic_name) (ground arith)

read_body :
    (e : IoError) (p : Publish) (rest : List ℕ)
    → IsSendable p
    → read_from e (Length.encode (length (body p)) ++ (body p ++ rest)) (control p)
      ≡ ok (arriving p, rest)
unfolding read_from read_payload
read_body e p rest h =
    let f = flags p in
    let fits : length (body p) ≤ max_variable_length = omega (arith, length-body p, h.fits) in
    rw (
      f.retain,
      f.qos,
      f.dup h.first,
      f.type,
      read_remaining_bytes-encode e (body p) rest fits,
      verify_topic_name-encode p.topic_name _ h.topic h.named h.plain,
      verify_packet_id-id_bytes p.qos p.packet_id p.payload h.identified,
      h.text,
    )

-- What `encode` writes of a packet that can be sent is read back from behind its first byte, and
-- the bytes that follow it are left. A packet at level 0 may have an identifier, which its
-- documentation calls an error: it is written without it and arrives without one.
pub read_from-encode_publish :
    (e : IoError) (p : Publish) (rest : List ℕ)
    → IsSendable p
    → (control_byte : ℕ) × (stream : List ℕ) × (encode p ≡ ok (control_byte ∷ stream))
      × (read_from e (stream ++ rest) control_byte ≡ ok (arriving p, rest))
read_from-encode_publish e p rest h =
    let prefix : List ℕ = Length.encode (length (body p)) in
    (
      control p,
      prefix ++ body p,
      encode-body p h,
      rw (append_assoc prefix (body p) rest) (read_body e p rest h),
    )

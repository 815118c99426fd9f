-- ===== src/Packets/Error.antt =====
-- common/packets/src/packet_error.rs: the kinds of errors, and a result that carries one. The
-- message of an error is not modelled, only its kind. `panic` is no value of the source's type: it
-- says that the thread panics there (an `unwrap` or an `expect` that fails).
use t1_tp.Common.{◌≡◌, refl}

pub data ErrorKind : Type 0 where
  invalid_protocol invalid_protocol_level invalid_flags invalid_reserved_bits : ErrorKind
  client_disconnected invalid_qos_level invalid_dup_flag invalid_control_packet_type : ErrorKind
  error_at_reading_packet topic_name_must_be_at_least_one_character_long : ErrorKind
  topic_name_must_not_have_wildcards invalid_topic_name invalid_return_code : ErrorKind
  would_block unexpected_eof unacceptable_protocol_version identifier_rejected : ErrorKind
  server_unavailable bad_user_name_or_password not_authorized other : ErrorKind

pub data PacketResult {ℓ} (A : Type ℓ) : Type ℓ where
  ok : A → PacketResult A
  err : ErrorKind → PacketResult A
  panic : PacketResult A

infixl 5 ◌>>=◌ ◌>>◌
abbrev pub ◌>>=◌ {ℓ κ} :
    {A : Type ℓ} {B : Type κ} → PacketResult A → (A → PacketResult B) → PacketResult B
ok a >>= f = f a
err e >>= f = err e
panic >>= f = panic

abbrev pub ◌>>◌ {ℓ} : {B : Type ℓ} → PacketResult (Unit {0}) → PacketResult B → PacketResult B
m >> k = m >>= λ _. k

-- The kinds of `std::io::Error` that the conversions to the program's errors tell apart.
pub data IoError : Type 0 where
  eof broken_pipe not_connected connection_reset would_block_io other_io : IoError

-- `impl From<io::Error> for PacketError`
unfoldable pub from_io_error : IoError → ErrorKind
from_io_error eof = unexpected_eof
from_io_error broken_pipe = unexpected_eof
from_io_error not_connected = unexpected_eof
from_io_error connection_reset = other
from_io_error would_block_io = would_block
from_io_error other_io = other

-- A step of a chain that succeeds: its first part did.
pub bind-eq-ok {ℓ κ} :
    {A : Type ℓ} {B : Type κ} (m : PacketResult A) (f : A → PacketResult B) {b : B}
    → (m >>= f) ≡ ok b
    → (a : A) × (m ≡ ok a) × (f a ≡ ok b)
bind-eq-ok (ok a) f h = (a, refl, h)
bind-eq-ok (err e) f h = cc
bind-eq-ok panic f h = cc

-- `unwrap` and `expect`
abbrev pub unwrap {ℓ} : {A : Type ℓ} → PacketResult A → PacketResult A
unwrap (ok a) = ok a
unwrap _ = panic

pub ok-injective {ℓ} : {A : Type ℓ} {a b : A} → ok a ≡ ok b → a ≡ b
ok-injective h = cc

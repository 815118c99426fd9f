-- ===== src/Server/Result.antt =====
-- server/src/server/server_error.rs: the errors of the server. The message of an error is not modelled,
-- only its kind.
use t1_tp.Common.{Option, none, some, Bool, true, false, ◌≡◌, refl, ◌⊎◌, inl, inr}
use t1_tp.Packets.Error.{
  ErrorKind, IoError, eof, broken_pipe, not_connected, connection_reset, would_block_io, other_io,
}
use t1_tp.Packets.Connack.{ConnackReturnCode}

pub data ServerErrorKind : Type 0 where
  protocol_violation client_disconnected client_not_found : ServerErrorKind
  connection_refused : ConnackReturnCode → ServerErrorKind
  dump_error timeout poisoned_lock irrecoverable idle other : ServerErrorKind

-- `ServerResult`; `panic` says that the thread panics.
pub data ServerResult {ℓ} (A : Type ℓ) : Type ℓ where
  ok : A → ServerResult A
  err : ServerErrorKind → ServerResult A
  panic : ServerResult A

-- `impl From<io::Error> for ServerError`
unfoldable pub from_io_error : IoError → ServerErrorKind
from_io_error eof = client_disconnected
from_io_error not_connected = client_disconnected
from_io_error broken_pipe = client_disconnected
from_io_error connection_reset = client_disconnected
from_io_error would_block_io = timeout
from_io_error other_io = other

-- `impl From<PacketError> for ServerError`
unfoldable pub from_packet_error : ErrorKind → ServerErrorKind
from_packet_error ErrorKind.would_block = timeout
from_packet_error ErrorKind.unexpected_eof = client_disconnected
from_packet_error _ = other

-- The answer of an input or output operation: the error, if there is one.
abbrev pub of_io : Option IoError → ServerResult (Unit {0})
of_io none = ok tt
of_io (some e) = err (from_io_error e)

abbrev pub is_ok : {A : Type 0} → ServerResult A → Bool
is_ok (ok _) = true
is_ok _ = false

pub Result-cases : {A : Type 0} (r : ServerResult A) → ((a : A) × (r ≡ ok a)) ⊎ (is_ok r ≡ false)
Result-cases (ok a) = inl (a, refl)
Result-cases (err kind) = inr refl
Result-cases panic = inr refl

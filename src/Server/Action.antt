-- ===== src/Server/Action.antt =====
-- server/src: the operations of the server, each with its result and the state behind it. The locks
-- that the source takes are not modelled: an operation has its state alone.
use t1_tp.Common.{◌≡◌, refl}
use t1_tp.Packets.Error.{PacketResult}
use t1_tp.Server.Result.{ServerErrorKind, ServerResult, ok, err, panic, from_packet_error}

-- An operation on the state `St`. What was done before an error stays done.
abbrev pub Action : Type 0 → Type 0 → Type 0
Action St A = St → ServerResult A × St

module _ {St : Type 0} where
  abbrev pub pure : {A : Type 0} → A → Action St A
  pure a s = (ok a, s)

  abbrev pub fail : {A : Type 0} → ServerErrorKind → Action St A
  fail kind s = (err kind, s)

  -- What `?` does with a result.
  abbrev pub lift : {A : Type 0} → ServerResult A → Action St A
  lift r s = (r, s)

  abbrev pub current : Action St St
  current s = (ok s, s)

  infixl 5 ◌>>=◌ ◌>>◌
  abbrev pub ◌>>=◌ : {A B : Type 0} → Action St A → (A → Action St B) → Action St B
  (f >>= g) s =
      let (r, s') = f s in
      elim r [ ok a ↦ g a s' | err kind ↦ (err kind, s') | panic ↦ (panic, s') ]

  abbrev pub ◌>>◌ : {A B : Type 0} → Action St A → Action St B → Action St B
  (f >> g) s =
      let (r, s') = f s in elim r [ ok a ↦ g s' | err kind ↦ (err kind, s') | panic ↦ (panic, s') ]

  -- What comes behind an operation whose answer and state are known.
  abbrev pub then_do :
      {A B : Type 0} → (A → Action St B) → ServerResult A × St → ServerResult B × St
  then_do g (r, s) = elim r [ ok a ↦ g a s | err kind ↦ (err kind, s) | panic ↦ (panic, s) ]

  continued :
      {A B : Type 0} (P : St → Type 0) (r : ServerResult A) (s : St) (g : A → Action St B)
      → P s
      → ((a : A) → r ≡ ok a → P (g a s).1)
      → P
          (elim r as (λ _. ServerResult B × St) [
            | ok a ↦ g a s
            | err kind ↦ (err kind, s)
            | panic ↦ (panic, s)
          ]).1
  continued P (ok a) s g h k = k a refl
  continued P (err kind) s g h k = h
  continued P panic s g h k = h

  succeeded :
      {A B : Type 0} (r : ServerResult A) (s : St) (g : A → Action St B) (b : B)
      → (elim r as (λ _. ServerResult B × St) [
        | ok a ↦ g a s
        | err kind ↦ (err kind, s)
        | panic ↦ (panic, s)
      ]).0
        ≡ ok b
      → (a : A) × (r ≡ ok a)
        × ((elim r as (λ _. ServerResult B × St) [
          | ok a ↦ g a s
          | err kind ↦ (err kind, s)
          | panic ↦ (panic, s)
        ])
            ≡ g a s)
  succeeded (ok a) s g b h = (a, refl, refl)
  succeeded (err kind) s g b h = cc
  succeeded panic s g b h = cc

  -- What holds behind the first of two operations holds behind both, when the second one keeps it.
  pub after :
      {A B : Type 0} (P : St → Type 0) (f : Action St A) (g : A → Action St B) (s : St)
      → P (f s).1
      → ((a : A) → (f s).0 ≡ ok a → P (g a (f s).1).1)
      → P ((f >>= g) s).1
  after P f g s h k = continued P (f s).0 (f s).1 g h k

  -- Two operations succeed when the first one does and the second one behind it.
  pub bind-ok :
      {A B : Type 0} (f : Action St A) (g : A → Action St B) (s : St) (b : B)
      → ((f >>= g) s).0 ≡ ok b
      → (a : A) × ((f s).0 ≡ ok a) × ((f >>= g) s ≡ g a (f s).1)
  bind-ok f g s b h = succeeded (f s).0 (f s).1 g b h

-- `?` on the result of a packet's operation
abbrev pub of_packet : {A : Type 0} → PacketResult A → ServerResult A
of_packet (PacketResult.ok a) = ok a
of_packet (PacketResult.err kind) = err (from_packet_error kind)
of_packet PacketResult.panic = panic

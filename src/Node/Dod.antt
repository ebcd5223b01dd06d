-- ===== src/Node/Dod.antt =====
-- bebop2/mesh-node/src/dod.rs: the definition-of-done gate that an inbound event passes before the
-- node applies it. A `HashSet` is the list of its members.
pub mod Once
use open_bebop.Prelude.{
  ℕ, Bool, true, false, not, ◌&&◌, ◌==◌, leb, if◌then◌else◌, List, [], ◌∷◌, length, contains,
  insert, nat_eq, Result, ok, err,
}
use open_bebop.Prelude.Bytes.{Bytes}

pub record Event : Type 0 where
  pub id : ℕ
  pub payload : Bytes

pub data DodFault : Type 0 where
  empty_payload placeholder_id replay expired : DodFault

pub record DodGate : Type 0 where
  pub applied : List ℕ

unfoldable pub new : DodGate
new = record { applied = [] }

-- The result with the gate that the call leaves.
unfoldable pub admit : Event → ℕ → ℕ → DodGate → Result DodFault (Unit {0}) × DodGate
admit event now expires_at g =
    if length event.payload == 0
    then (err empty_payload, g)
    else if event.id == 0
    then (err placeholder_id, g)
    else if contains g.applied event.id
    then (err replay, g)
    else if not (expires_at == 0) && leb expires_at now
    then (err expired, g)
    else (ok tt, record g { applied = insert event.id g.applied })

unfoldable pub already_applied : DodGate → ℕ → Bool
already_applied g id = contains g.applied id

unfoldable pub admitted_count : DodGate → ℕ
admitted_count g = length g.applied

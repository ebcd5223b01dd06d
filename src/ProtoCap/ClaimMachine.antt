-- ===== src/ProtoCap/ClaimMachine.antt =====
-- bebop2/proto-cap/src/claim_machine.rs: the lifecycle of a courier's claim, as decide and fold.
pub mod Laws
use open_bebop.Prelude.{
  ℕ, Bool, true, false, not, Option, none, some, List, [], ◌∷◌, ◌==◌, if◌then◌else◌, Result, ok,
  err, ◌>>=◌, any,
}

pub data ClaimStatus : Type 0 where
  offered : ClaimStatus
  claimed : ClaimStatus
  released : ClaimStatus
  picked_up : ClaimStatus

unfoldable pub discriminant : ClaimStatus → ℕ
discriminant offered = 0x20
discriminant claimed = 0x21
discriminant released = 0x22
discriminant picked_up = 0x23

unfoldable pub from_discriminant : ℕ → Option ClaimStatus
from_discriminant b =
    if b == 0x20
    then some offered
    else if b == 0x21
    then some claimed
    else if b == 0x22
    then some released
    else if b == 0x23
    then some picked_up
    else none

pub data ClaimError : Type 0 where
  same_status : ClaimStatus → ClaimError
  illegal : ClaimStatus → ClaimStatus → ClaimError

-- The derived `PartialEq`: the enum has no payload, so its discriminants tell the values apart.
unfoldable pub same : ClaimStatus → ClaimStatus → Bool
unfolding discriminant
same a b = discriminant a == discriminant b

unfoldable pub allowed_next : ClaimStatus → List ClaimStatus
allowed_next offered = claimed ∷ released ∷ []
allowed_next claimed = released ∷ picked_up ∷ []
allowed_next released = []
allowed_next picked_up = []

unfoldable pub assert_transition : ClaimStatus → ClaimStatus → Result ClaimError (Unit {0})
unfolding same allowed_next
assert_transition from to =
    if same from to
    then err (same_status from)
    else if any (same to) (allowed_next from)
    then ok tt
    else err (illegal from to)

-- `map_err(|e| (e, cur))`
abbrev pub at :
    ClaimStatus → Result ClaimError (Unit {0}) → Result (ClaimError × ClaimStatus) (Unit {0})
at cur (ok u) = ok u
at cur (err e) = err (e, cur)

unfoldable pub fold_transitions :
    ClaimStatus → List ClaimStatus → Result (ClaimError × ClaimStatus) ClaimStatus
unfolding assert_transition
fold_transitions cur [] = ok cur
fold_transitions cur (next ∷ steps) =
    at cur (assert_transition cur next) >>= λ _. fold_transitions next steps

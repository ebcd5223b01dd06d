-- ===== src/Delivery/Transition.antt =====
-- bebop2/delivery-domain/src/lib.rs: order transitions on the wire and their local legality check.
pub mod Laws
use open_bebop.Prelude.{
  ℕ, Bool, Option, none, some, List, [], ◌∷◌, length, take, drop, ltb, ◌==◌, any, get_or,
  if◌then◌else◌, Result, ok, err,
}
use open_bebop.Prelude.Bytes.{Bytes, le_bytes, of_le_bytes}

pub data DeliveryStatus : Type 0 where
  pending confirmed preparing ready in_delivery delivered : DeliveryStatus
  rejected cancelled picked_up : DeliveryStatus

unfoldable pub discriminant : DeliveryStatus → ℕ
discriminant pending = 0x10
discriminant confirmed = 0x11
discriminant preparing = 0x12
discriminant ready = 0x13
discriminant in_delivery = 0x14
discriminant delivered = 0x15
discriminant rejected = 0x16
discriminant cancelled = 0x17
discriminant picked_up = 0x18

unfoldable pub from_discriminant : ℕ → Option DeliveryStatus
from_discriminant b =
    if b == 0x10
    then some pending
    else if b == 0x11
    then some confirmed
    else if b == 0x12
    then some preparing
    else if b == 0x13
    then some ready
    else if b == 0x14
    then some in_delivery
    else if b == 0x15
    then some delivered
    else if b == 0x16
    then some rejected
    else if b == 0x17
    then some cancelled
    else if b == 0x18
    then some picked_up
    else none

pub record OrderTransition : Type 0 where
  pub order_id : ℕ
  pub from : DeliveryStatus
  pub to : DeliveryStatus

unfoldable pub to_bytes : OrderTransition → Bytes
to_bytes t = discriminant t.from ∷ discriminant t.to ∷ le_bytes 8 t.order_id

-- The two `?` of the decoder, and the record that it returns.
abbrev pub transition_of :
    Option DeliveryStatus → Option DeliveryStatus → ℕ → Option OrderTransition
transition_of none to id = none
transition_of (some from) none id = none
transition_of (some from) (some to) id = some (record { order_id = id; from = from; to = to })

unfoldable pub from_bytes : Bytes → Option OrderTransition
from_bytes b =
    if ltb (length b) 10
    then none
    else transition_of (from_discriminant (get_or b 0 0)) (from_discriminant (get_or b 1 0))
        (of_le_bytes (take 8 (drop 2 b)))

-- The derived `PartialEq`: the enum has no payload, so its discriminants tell the values apart.
unfoldable pub same_delivery : DeliveryStatus → DeliveryStatus → Bool
same_delivery a b = discriminant a == discriminant b

unfoldable pub allowed_next_local : DeliveryStatus → List DeliveryStatus
allowed_next_local pending = confirmed ∷ rejected ∷ cancelled ∷ []
allowed_next_local confirmed = preparing ∷ in_delivery ∷ []
allowed_next_local preparing = ready ∷ []
allowed_next_local ready = in_delivery ∷ picked_up ∷ []
allowed_next_local in_delivery = delivered ∷ []
allowed_next_local delivered = []
allowed_next_local rejected = []
allowed_next_local cancelled = []
allowed_next_local picked_up = []

-- The texts "same status" and "illegal transition".
pub data TransitionFault : Type 0 where
  kept_status not_allowed : TransitionFault

unfoldable pub assert_transition_local :
    DeliveryStatus → DeliveryStatus → Result TransitionFault (Unit {0})
assert_transition_local from to =
    if same_delivery from to
    then err kept_status
    else if any (same_delivery to) (allowed_next_local from)
    then ok tt
    else err not_allowed

-- ===== src/ProtoCap/EventDict.antt =====
-- bebop2/proto-cap/src/event_dict.rs: the delivery events' payloads and the status table that every
-- receiver runs.
pub mod Codec
pub mod Laws
use open_bebop.Prelude.{
  ℕ, Bool, Option, none, some, List, [], ◌∷◌, ◌==◌, if◌then◌else◌, Result, ok, err, any,
}

pub data DeliveryStatus : Type 0 where
  pending : DeliveryStatus
  confirmed : DeliveryStatus
  preparing : DeliveryStatus
  ready : DeliveryStatus
  in_delivery : DeliveryStatus
  delivered : DeliveryStatus
  rejected : DeliveryStatus
  cancelled : DeliveryStatus
  picked_up : DeliveryStatus

unfoldable pub status_discriminant : DeliveryStatus → ℕ
status_discriminant pending = 0x10
status_discriminant confirmed = 0x11
status_discriminant preparing = 0x12
status_discriminant ready = 0x13
status_discriminant in_delivery = 0x14
status_discriminant delivered = 0x15
status_discriminant rejected = 0x16
status_discriminant cancelled = 0x17
status_discriminant picked_up = 0x18

unfoldable pub status_from_discriminant : ℕ → Option DeliveryStatus
status_from_discriminant b =
    if b == 0x10
    then some pending
    else if b == 0x11
    then some confirmed
    else if b == 0x12
    then some preparing
    else if b == 0x13
    then some ready
    else if b == 0x14
    then some in_delivery
    else if b == 0x15
    then some delivered
    else if b == 0x16
    then some rejected
    else if b == 0x17
    then some cancelled
    else if b == 0x18
    then some picked_up
    else none

-- The derived `PartialEq`: the enum has no payload, so its discriminants tell the values apart.
unfoldable pub same_status : DeliveryStatus → DeliveryStatus → Bool
unfolding status_discriminant
same_status a b = status_discriminant a == status_discriminant b

unfoldable pub allowed_statuses : DeliveryStatus → List DeliveryStatus
allowed_statuses pending = confirmed ∷ rejected ∷ cancelled ∷ []
allowed_statuses confirmed = preparing ∷ in_delivery ∷ []
allowed_statuses preparing = ready ∷ []
allowed_statuses ready = in_delivery ∷ picked_up ∷ []
allowed_statuses in_delivery = delivered ∷ []
allowed_statuses delivered = []
allowed_statuses rejected = []
allowed_statuses cancelled = []
allowed_statuses picked_up = []

-- The messages of the `&'static str` errors.
pub data DictError : Type 0 where
  unchanged_status : DictError
  illegal_transition : DictError
  truncated_u64 : DictError
  truncated_str_len : DictError
  truncated_str : DictError
  bad_utf8 : DictError
  truncated_key : DictError
  truncated_status : DictError
  bad_from_status : DictError
  bad_to_status : DictError
  unsupported_scope : DictError

unfoldable pub assert_status_transition :
    DeliveryStatus → DeliveryStatus → Result DictError (Unit {0})
assert_status_transition from to =
    if same_status from to
    then err unchanged_status
    else if any (same_status to) (allowed_statuses from)
    then ok tt
    else err illegal_transition

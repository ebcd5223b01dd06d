-- ===== src/Delivery/Transition/Laws.antt =====
-- The wire form of a transition of bebop2/delivery-domain/src/lib.rs, and its status table beside
-- that of bebop2/proto-cap/src/event_dict.rs.
use open_bebop.Prelude.{
  ◌≡◌, refl, Bool, true, false, some, List, [], ◌∷◌, ◌++◌, map, length, length-append, take-append,
  ltb, le→ltb, any, if◌then◌else◌, Result, ok, err, arith,
}
use open_bebop.Prelude.Bytes.{Bytes, le_bytes, IsU64, length-le_bytes, of_le_bytes-le_bytes}
use open_bebop.Delivery.Transition.{
  DeliveryStatus, pending, confirmed, preparing, ready, in_delivery, delivered, rejected, cancelled,
  picked_up, OrderTransition, discriminant, from_discriminant, to_bytes, from_bytes, same_delivery,
  allowed_next_local, TransitionFault, kept_status, not_allowed, assert_transition_local,
}
use open_bebop.ProtoCap.EventDict

delivery-round_trip : (s : DeliveryStatus) → from_discriminant (discriminant s) ≡ some s
unfolding from_discriminant discriminant
delivery-round_trip pending = refl
delivery-round_trip confirmed = refl
delivery-round_trip preparing = refl
delivery-round_trip ready = refl
delivery-round_trip in_delivery = refl
delivery-round_trip delivered = refl
delivery-round_trip rejected = refl
delivery-round_trip cancelled = refl
delivery-round_trip picked_up = refl

-- Decoding an encoded transition with a 64-bit order id gives it back, whatever follows it in
-- the buffer.
pub transition-round_trip :
    (t : OrderTransition) (extra : Bytes)
    → IsU64 t.order_id
    → from_bytes (to_bytes t ++ extra) ≡ some t
unfolding from_bytes to_bytes
transition-round_trip t extra u =
    let id = le_bytes 8 t.order_id in
    let long : ltb (length (to_bytes t ++ extra)) 10 ≡ false =
      le→ltb (length (to_bytes t ++ extra)) 10
        (omega (arith, length-append id extra, length-le_bytes 8 t.order_id)) in
    rw
      (
        long,
        delivery-round_trip t.from,
        delivery-round_trip t.to,
        take-append 8 id extra (length-le_bytes 8 t.order_id),
        of_le_bytes-le_bytes 8 t.order_id u,
      )
      refl

-- The receivers' copy of a status, and of an outcome.
abbrev pub mirror : DeliveryStatus → EventDict.DeliveryStatus
mirror pending = EventDict.pending
mirror confirmed = EventDict.confirmed
mirror preparing = EventDict.preparing
mirror ready = EventDict.ready
mirror in_delivery = EventDict.in_delivery
mirror delivered = EventDict.delivered
mirror rejected = EventDict.rejected
mirror cancelled = EventDict.cancelled
mirror picked_up = EventDict.picked_up

abbrev pub mirror_outcome :
    Result TransitionFault (Unit {0}) → Result EventDict.DictError (Unit {0})
mirror_outcome (ok u) = ok u
mirror_outcome (err kept_status) = err EventDict.unchanged_status
mirror_outcome (err not_allowed) = err EventDict.illegal_transition

mirror-discriminant :
    (s : DeliveryStatus) → EventDict.status_discriminant (mirror s) ≡ discriminant s
unfolding EventDict.status_discriminant discriminant
mirror-discriminant pending = refl
mirror-discriminant confirmed = refl
mirror-discriminant preparing = refl
mirror-discriminant ready = refl
mirror-discriminant in_delivery = refl
mirror-discriminant delivered = refl
mirror-discriminant rejected = refl
mirror-discriminant cancelled = refl
mirror-discriminant picked_up = refl

mirror_same :
    (a b : DeliveryStatus) → EventDict.same_status (mirror a) (mirror b) ≡ same_delivery a b
unfolding EventDict.same_status same_delivery
mirror_same a b = rw (mirror-discriminant a, mirror-discriminant b) refl

mirror_allowed :
    (s : DeliveryStatus) → EventDict.allowed_statuses (mirror s) ≡ map mirror (allowed_next_local s)
unfolding EventDict.allowed_statuses allowed_next_local
mirror_allowed pending = refl
mirror_allowed confirmed = refl
mirror_allowed preparing = refl
mirror_allowed ready = refl
mirror_allowed in_delivery = refl
mirror_allowed delivered = refl
mirror_allowed rejected = refl
mirror_allowed cancelled = refl
mirror_allowed picked_up = refl

any-mirror :
    (to : DeliveryStatus) (ss : List DeliveryStatus)
    → any (EventDict.same_status (mirror to)) (map mirror ss) ≡ any (same_delivery to) ss
any-mirror to [] = refl
any-mirror to (s ∷ ss) = rw (mirror_same to s, any-mirror to ss) refl

mirror_if :
    (same legal : Bool)
    → (if same
        then err EventDict.unchanged_status
        else if legal
        then ok tt
        else err EventDict.illegal_transition)
      ≡ mirror_outcome (if same then err kept_status else if legal then ok tt else err not_allowed)
mirror_if true legal = refl
mirror_if false true = refl
mirror_if false false = refl

-- The table that every receiver runs on an `OrderStatusChanged` payload gives the verdict of the
-- delivery domain's own table, error included, for every pair of statuses.
pub assert_status_transition-mirror :
    (from to : DeliveryStatus)
    → EventDict.assert_status_transition (mirror from) (mirror to)
      ≡ mirror_outcome (assert_transition_local from to)
unfolding EventDict.assert_status_transition assert_transition_local
assert_status_transition-mirror from to =
    rw (mirror_same from to, mirror_allowed from, any-mirror to (allowed_next_local from))
      (mirror_if (same_delivery from to) (any (same_delivery to) (allowed_next_local from)))

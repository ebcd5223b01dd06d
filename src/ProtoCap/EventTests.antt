-- ===== src/ProtoCap/EventTests.antt =====
-- bebop2/proto-cap/src/claim_machine.rs and event_dict.rs on small claims and payloads.
use open_bebop.Prelude.{◌≡◌, ◌↔◌, refl, Bool, true, List, [], ◌∷◌, ok, err}
use open_bebop.Prelude.Bytes.{Bytes}
use open_bebop.ProtoCap.ClaimMachine.{
  ClaimStatus, offered, claimed, released, ClaimError, same_status, illegal, fold_transitions,
  assert_transition,
}
use open_bebop.ProtoCap.ClaimMachine
use open_bebop.ProtoCap.ClaimMachine.Laws.{Run, fold_transitions_iff}
use open_bebop.ProtoCap.EventDict.{pending, confirmed}
use open_bebop.ProtoCap.EventDict.Codec.{OrderPlacedPayload, StatusChangedPayload}

abbrev taken : List ClaimStatus
taken = claimed ∷ ClaimMachine.picked_up ∷ []

abbrev skipped : List ClaimStatus
skipped = claimed ∷ offered ∷ released ∷ []

fold_transitions_iff_example :
    (fold_transitions offered taken ≡ ok ClaimMachine.picked_up)
    ↔ Run offered taken ClaimMachine.picked_up
fold_transitions_iff_example = fold_transitions_iff offered taken ClaimMachine.picked_up

skip_refused : fold_transitions offered skipped ≡ err (illegal claimed offered, claimed)
unfolding fold_transitions
skip_refused = refl

abbrev any_text : Bytes → Bool
any_text s = true

abbrev placed : OrderPlacedPayload
placed = record { order_id = 7; amount = 1250; src = 65 ∷ []; dst = 66 ∷ 67 ∷ [] }

abbrev accepted_order : StatusChangedPayload
accepted_order = record { order_id = 7; from = pending; to = confirmed }

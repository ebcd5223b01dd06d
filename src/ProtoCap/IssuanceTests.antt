-- ===== src/ProtoCap/IssuanceTests.antt =====
-- The issuance budget of bebop2/proto-cap/src/node_id.rs on two calls.
use open_bebop.Prelude.{◌≡◌, ◌≤◌, [], ◌∷◌, replicate, arith, true}
use open_bebop.Crypto.{Crypto}
use open_bebop.ProtoCap.Scope.{Resource, Action, single}
use open_bebop.ProtoCap.Roster.{effect_single}
use open_bebop.ProtoCap.Issuance.{IssuanceBudget, operator_signed}
use open_bebop.ProtoCap.Issuance.Budget.{
  Call, signed_in, room, IsWithin, signed_in-le, signed_in-exhausted,
}

abbrev toy : Crypto
toy = record {
  sha3 = λ text. text;
  ed_sign = λ seed text. seed;
  ed_verify = λ key text sig. true;
  pq_sign = λ key text random. key;
  pq_verify = λ key text sig. true;
}

abbrev budget : IssuanceBudget
budget = record { anchor_id = 1 ∷ []; epoch = 0; minted_count = 0; max_per_epoch = 1 }

abbrev spent : IssuanceBudget
spent = record { anchor_id = 1 ∷ []; epoch = 0; minted_count = 1; max_per_epoch = 1 }

abbrev call : Call
call = record {
  policy = operator_signed;
  roster = record { anchors = (1 ∷ []) ∷ [] };
  revoked = record { revoked_keys = []; revoked_cap_hash = [] };
  issued_by = 1 ∷ [];
  terms = record {
    subject = 2 ∷ [];
    scope = single Resource.route Action.send;
    effect = effect_single Resource.route Action.send;
    expiry = 9999;
    nonce = replicate 8 0;
  };
  seed = 1 ∷ [];
  now_tick = 5;
}

within : IsWithin toy 10 budget
within = record { minted = omega arith; cap = omega arith }

signed_in-le_example : signed_in toy 10 0 budget (call ∷ call ∷ []) ≤ room toy 10 0 budget
signed_in-le_example = signed_in-le toy 10 0 budget (call ∷ call ∷ []) within

signed_in-exhausted_example : signed_in toy 10 0 spent (call ∷ call ∷ []) ≡ 0
signed_in-exhausted_example = signed_in-exhausted toy 10 0 spent (call ∷ call ∷ []) (omega arith)

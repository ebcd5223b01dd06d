-- ===== src/ProtoCap/Tests.antt =====
-- The crate bebop2/proto-cap on one anchor, one courier and one menu capability.
use open_bebop.Prelude.{
  ℕ, ◌≡◌, ◌↔◌, refl, true, false, none, some, List, [], ◌∷◌, replicate, take, ok, err, arith, ◌≟◌,
  contains, Elem, Distinct,
}
use open_bebop.Prelude.Bytes.{Bytes, bytes_eq, bytes_beq}
use open_bebop.Prelude.Sort.{sort}
use open_bebop.Crypto.{Crypto}
use open_bebop.ProtoCap.Error.{expired}
use open_bebop.ProtoCap.Scope.{
  Resource-discrete, Action-discrete, Scope, Grant, menu, order, read, order_placed,
}
use open_bebop.ProtoCap.Tlv.{Field, key_le, tlv_signing_input, domain_capability}
use open_bebop.ProtoCap.Tlv.Laws.{tlv_signing_input-injective}
use open_bebop.ProtoCap.Capability.{Capability, is_fresh, canonical_bytes_tlv}
use open_bebop.ProtoCap.Capability.Laws.{IsSized}
use open_bebop.ProtoCap.Roster.{
  check_link, verify_signature, Delegation, AnchorRoster, verify_chain,
}
use open_bebop.ProtoCap.Roster.Chain.{IsAuthorized, verify_chain_iff}
use open_bebop.ProtoCap.Revocation.{RevocationSet, is_revoked_key, is_revoked_capability, pq_key_id}
use open_bebop.ProtoCap.Redline.{
  RedLinePolicy, deny_by_default, allow_list, RedLineCategory, is_red_line,
}
use open_bebop.ProtoCap.Redline
use open_bebop.ProtoCap.Redline.Laws.{IsAllowed, check_iff}
use open_bebop.ProtoCap.SignedFrame.{SignedFrame, verify_classical, binding_signing_domain}
use open_bebop.ProtoCap.SignedFrame.Laws.{swap_pq}
use open_bebop.ProtoCap.HybridGate.{HybridGate, classical_until_pq_audit, max_seen_nonces}
use open_bebop.ProtoCap.HybridGate
use open_bebop.ProtoCap.HybridGate.Laws.{IsVerified, gate-check_iff, check_error_keeps}
use open_bebop.ProtoCap.HybridGate.Replay.{Request, accepted, accepted-Distinct}
use open_bebop.ProtoCap.HybridGate.PqKey.{check-swap_pq}

-- A signature is good when it starts as the key does.
abbrev toy : Crypto
toy = record {
  sha3 = λ text. take 32 text;
  ed_sign = λ seed text. replicate 64 7;
  ed_verify = λ key text sig. take 1 sig ≟ take 1 key;
  pq_sign = λ key text random. key;
  pq_verify = λ key text sig. sig ≟ key;
}

abbrev iter : List Bytes → List Bytes
iter xs = xs

abbrev anchor_key : Bytes
anchor_key = replicate 32 7

abbrev courier_key : Bytes
courier_key = replicate 32 8

abbrev menu_scope : Scope
menu_scope = record { grants = (menu, read) ∷ [] }

abbrev wide_scope : Scope
wide_scope = record { grants = (order, order_placed) ∷ (menu, read) ∷ [] }

abbrev request : Capability
request = record {
  subject_key = courier_key;
  subject_key_pq = none;
  scope = menu_scope;
  nonce = replicate 8 1;
  expiry = 100;
}

abbrev root : Delegation
root = record {
  issued_by = anchor_key;
  subject = courier_key;
  scope = wide_scope;
  effect = record { grants = (menu, read) ∷ [] };
  expiry = 100;
  nonce = replicate 8 2;
  signature = replicate 64 7;
}

abbrev roster : AnchorRoster
roster = record { anchors = anchor_key ∷ [] }

accepted_chain : verify_chain toy roster (root ∷ []) request 5 ≡ ok tt
unfolding verify_chain contains bytes_beq check_link verify_signature Resource-discrete
    Action-discrete
accepted_chain = refl

verify_chain_iff_example :
    (verify_chain toy roster (root ∷ []) request 5 ≡ ok tt)
    ↔ IsAuthorized toy 5 roster root [] request
verify_chain_iff_example = verify_chain_iff toy 5 roster root [] request

abbrev frame : SignedFrame
frame = record {
  capability = request;
  payload = 1 ∷ [];
  channel_binding = none;
  classical_sig = some (replicate 64 8);
  pq_sig = none;
  delegation_chain = root ∷ [];
}

abbrev gate : HybridGate
gate = record {
  policy = classical_until_pq_audit;
  redline = some deny_by_default;
  seen = replicate 8 9 ∷ [];
}

abbrev no_revocations : RevocationSet
no_revocations = record { revoked_keys = []; revoked_cap_hash = [] }

gate-check_iff_example :
    ((HybridGate.check toy iter gate frame roster (root ∷ []) no_revocations 5).0 ≡ ok tt) ↔ (
      IsVerified toy gate frame roster (root ∷ []) no_revocations 5
      × (contains gate.seen frame.capability.nonce ≡ false))
gate-check_iff_example = gate-check_iff toy gate frame roster (root ∷ []) no_revocations 5 iter

too_late :
    (HybridGate.check toy iter gate frame roster (root ∷ []) no_revocations 100).0 ≡ err expired
unfolding HybridGate.check HybridGate.verify_all is_fresh
too_late = refl

check_error_keeps_example :
    (HybridGate.check toy iter gate frame roster (root ∷ []) no_revocations 100).1 ≡ gate
check_error_keeps_example =
    check_error_keeps toy gate frame roster (root ∷ []) no_revocations 100 iter expired too_late

frame_passes : (HybridGate.check toy iter gate frame roster (root ∷ []) no_revocations 5).0 ≡ ok tt
unfolding HybridGate.check HybridGate.verify_all is_fresh verify_chain contains bytes_beq check_link
    verify_signature Resource-discrete Action-discrete Redline.check is_revoked_key
    is_revoked_capability verify_classical
frame_passes = refl

abbrev other_pq : Bytes
other_pq = replicate 4 3

pq_signed : toy.pq_verify other_pq (binding_signing_domain frame) other_pq ≡ true
unfolding bytes_beq
pq_signed = refl

pq_good : is_revoked_key no_revocations (pq_key_id toy other_pq) ≡ false
unfolding is_revoked_key contains
pq_good = refl

check-swap_pq_example :
    (HybridGate.check toy iter gate
      (swap_pq other_pq other_pq frame)
      roster
      (root ∷ [])
      no_revocations
      5).0
    ≡ ok tt
check-swap_pq_example =
    check-swap_pq toy iter gate frame roster (root ∷ []) no_revocations 5 other_pq other_pq
      pq_signed pq_good frame_passes

abbrev call : Request
call = record {
  frame = frame;
  roster = roster;
  chain = root ∷ [];
  revocations = no_revocations;
  now = 5;
}

accepted-Distinct_example : Distinct (accepted toy iter gate (call ∷ call ∷ []))
accepted-Distinct_example = accepted-Distinct toy iter gate (call ∷ call ∷ []) (omega arith)

abbrev known_bad : RevocationSet
known_bad = record { revoked_keys = anchor_key ∷ []; revoked_cap_hash = [] }

bad_anchor : is_revoked_key known_bad anchor_key ≡ true
unfolding is_revoked_key contains bytes_beq
bad_anchor = refl

check_iff_example : (Redline.check wide_scope (allow_list (wide_scope ∷ [])) ≡ ok tt) ↔ (
    (g : Grant) (k : RedLineCategory)
    → Elem g wide_scope.grants
    → is_red_line g.0 g.1 ≡ some k
    → IsAllowed (allow_list (wide_scope ∷ [])) g)
check_iff_example = check_iff wide_scope (allow_list (wide_scope ∷ []))

abbrev in_order : List Field
in_order = (1 ∷ [], 5 ∷ 6 ∷ []) ∷ (2 ∷ [], 7 ∷ []) ∷ []

abbrev out_of_order : List Field
out_of_order = (2 ∷ [], 7 ∷ []) ∷ (1 ∷ [], 5 ∷ 6 ∷ []) ∷ []

abbrev version : ℕ
version = 1

same_input :
    tlv_signing_input domain_capability version version in_order
    ≡ tlv_signing_input domain_capability version version out_of_order
unfolding tlv_signing_input sort
same_input = refl

tlv_signing_input-injective_example :
    (domain_capability ≡ domain_capability)
    × (version ≡ version)
    × (version ≡ version)
    × (sort key_le in_order ≡ sort key_le out_of_order)
tlv_signing_input-injective_example =
    tlv_signing_input-injective domain_capability domain_capability version version version version
      in_order out_of_order refl (omega arith) (omega arith)
      ((refl, omega arith), ((refl, omega arith), tt))
      ((refl, omega arith), ((refl, omega arith), tt)) same_input

request-IsSized : IsSized request
request-IsSized = record { key = refl; nonce = refl; expiry = omega arith; grants = omega arith }

other-IsSized : IsSized (record request { subject_key_pq = some other_pq })
other-IsSized = record { key = refl; nonce = refl; expiry = omega arith; grants = omega arith }

same_bytes :
    canonical_bytes_tlv request
    ≡ canonical_bytes_tlv (record request { subject_key_pq = some other_pq })
unfolding canonical_bytes_tlv
same_bytes = refl

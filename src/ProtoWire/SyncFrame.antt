-- ===== src/ProtoWire/SyncFrame.antt =====
-- bebop2/proto-wire/src/sync_pull.rs, first part: the frame of the pull protocol, its canonical
-- wire image, its signature, and its carrier, the signed frame of proto-cap.
pub mod Image
pub mod Codec
pub mod Envelope
use open_bebop.Prelude.{
  ℕ, ◌+◌, ◌^◌, ◌%◌, ◌≡◌, Bool, true, false, not, ◌&&◌, Option, none, some, List, [], ◌∷◌, ◌++◌,
  length, take, drop, get_or, replicate, ltb, ◌==◌, ◌≟◌, if◌then◌else◌, Result, ok, err, guard,
  ok_or, ◌>>=◌, ◌>>◌,
}
use open_bebop.Prelude.Bytes.{Bytes, le_bytes, of_le_bytes, bytes_eq}
use open_bebop.Prelude.Slices.{slice}
use open_bebop.Crypto.{Crypto}
use open_bebop.ProtoCap.Scope.{Resource, Action}
use open_bebop.ProtoCap.Scope
use open_bebop.ProtoCap.Capability.{Capability}
use open_bebop.ProtoCap.Capability
use open_bebop.ProtoCap.SignedFrame.{SignedFrame, sign_classical, verify_classical}
use open_bebop.ProtoCap.SignedFrame

pub data SyncResource : Type 0 where
  sync : SyncResource

pub data SyncAction : Type 0 where
  pull : SyncAction

pub record SyncScope : Type 0 where
  pub resource : SyncResource
  pub action : SyncAction

abbrev pub resource_discriminant : SyncResource → ℕ
resource_discriminant sync = 0x0C

abbrev pub action_discriminant : SyncAction → ℕ
action_discriminant pull = 0x0C

abbrev pub pull_scope : SyncScope
pull_scope = record { resource = sync; action = pull }

-- The derived `PartialEq`.
unfoldable pub scope_beq : SyncScope → SyncScope → Bool
scope_beq a b =
    resource_discriminant a.resource == resource_discriminant b.resource
    && action_discriminant a.action == action_discriminant b.action

abbrev pub to_tlv_bytes : SyncScope → Bytes
to_tlv_bytes s = resource_discriminant s.resource ∷ action_discriminant s.action ∷ []

unfoldable pub from_tlv_bytes : Bytes → Option SyncScope
from_tlv_bytes b = if b ≟ to_tlv_bytes pull_scope then some pull_scope else none

unfoldable pub to_capability_scope : SyncScope → Scope.Scope
to_capability_scope s = Scope.single Resource.sync Action.pull

pub record SyncFrame : Type 0 where
  pub scope : SyncScope
  pub content_id : Bytes
  pub prev : Bytes
  pub actor : Bytes
  pub seq : ℕ
  pub payload : Bytes
  pub sig : Option Bytes

pub data SyncReject : Type 0 where
  wrong_scope content_id_mismatch unsigned bad_signature bad_payload : SyncReject

abbrev pub sync_wire_fixed_head : ℕ
sync_wire_fixed_head = 110

abbrev pub max_sync_payload : ℕ
max_sync_payload = 1048576

-- The bytes that the content-id hashes.
unfoldable pub body_bytes : SyncFrame → Bytes
body_bytes f = f.prev ++ (f.actor ++ (le_bytes 8 f.seq ++ f.payload))

unfoldable pub signing_domain : SyncFrame → Bytes
signing_domain f = f.prev ++ (f.actor ++ (le_bytes 8 f.seq ++ (f.payload ++ to_tlv_bytes f.scope)))

unfoldable pub sig_bytes : Option Bytes → Bytes
sig_bytes none = 0 ∷ []
sig_bytes (some s) = 1 ∷ s

-- `self.payload.len() as u32` keeps the low 32 bits.
unfoldable pub to_wire_bytes : SyncFrame → Bytes
unfolding sig_bytes
to_wire_bytes f =
    to_tlv_bytes f.scope
    ++ (f.content_id
        ++ (f.prev
            ++ (f.actor
                ++ (le_bytes 8 f.seq
                    ++ (le_bytes 4 (length f.payload % 2 ^ 32)
                        ++ (f.payload ++ sig_bytes f.sig))))))

-- The signature at offset `o`, by the flag before it.
unfoldable pub read_sig : ℕ → ℕ → Bytes → Result SyncReject (Option Bytes)
unfolding slice
read_sig flag o b =
    if flag == 0
    then (if length b == o then ok none else err bad_payload)
    else if flag == 1
    then (if length b == o + 64 then ok (some (slice o 64 b)) else err bad_payload)
    else err bad_payload

unfoldable pub from_wire_bytes : Bytes → Result SyncReject SyncFrame
unfolding from_tlv_bytes slice read_sig
from_wire_bytes b = do
  guard (not (ltb (length b) sync_wire_fixed_head)) bad_payload
  scope ← ok_or (from_tlv_bytes (slice 0 2 b)) bad_payload
  let content_id = slice 2 32 b
  let prev = slice 34 32 b
  let actor = slice 66 32 b
  let seq = of_le_bytes (slice 98 8 b)
  let payload_len = of_le_bytes (slice 106 4 b)
  guard (not (ltb max_sync_payload payload_len)) bad_payload
  guard (not (ltb (length b) (110 + payload_len + 1))) bad_payload
  let payload = slice 110 payload_len b
  sig ← read_sig (get_or b (110 + payload_len) 0) (110 + payload_len + 1) b
  ok (record {
    scope = scope;
    content_id = content_id;
    prev = prev;
    actor = actor;
    seq = seq;
    payload = payload;
    sig = sig;
  })

module _ (c : Crypto) where
  unfoldable pub compute_content_id : SyncFrame → Bytes
  unfolding body_bytes
  compute_content_id f = c.sha3 (body_bytes f)

  abbrev pub with_content_id : SyncFrame → SyncFrame
  with_content_id f = record f { content_id = compute_content_id f }

  unfoldable pub sign : SyncScope → Bytes → Bytes → ℕ → Bytes → Bytes → SyncFrame
  unfolding signing_domain
  sign scope prev actor seq payload seed =
      let f : SyncFrame = record {
        scope = scope;
        content_id = replicate 32 0;
        prev = prev;
        actor = actor;
        seq = seq;
        payload = payload;
        sig = none;
      } in
      record (with_content_id f) {
        sig = some (c.ed_sign seed (signing_domain (with_content_id f)));
      }

  unfoldable pub verify : SyncFrame → Result SyncReject (Unit {0})
  unfolding signing_domain scope_beq
  verify f = do
    guard (scope_beq f.scope pull_scope) wrong_scope
    guard (compute_content_id f ≟ f.content_id) content_id_mismatch
    sig ← ok_or f.sig unsigned
    guard (length sig == 64) bad_signature
    guard (c.ed_verify f.actor (signing_domain f) sig) bad_signature

  -- The capability's nonce is the head of the content-id.
  unfoldable pub carrier : SyncFrame → Capability
  carrier f =
      record (Capability.new f.actor Resource.ledger Action.read (replicate 8 0) 9999999999) {
        nonce = take 8 f.content_id;
      }

  unfoldable pub into_signed_frame : Bytes → SyncFrame → SignedFrame
  unfolding carrier to_wire_bytes
  into_signed_frame seed f = sign_classical c seed (SignedFrame.new (carrier f) (to_wire_bytes f))

  -- `map_err(|_| SyncReject::Unsigned)`
  abbrev pub or_unsigned : {E : Type 0} → Result E (Unit {0}) → Result SyncReject (Unit {0})
  or_unsigned (ok u) = ok u
  or_unsigned (err e) = err unsigned

  unfoldable pub from_signed_frame : SignedFrame → Result SyncReject SyncFrame
  unfolding from_wire_bytes verify
  from_signed_frame frame = do
    or_unsigned (verify_classical c frame)
    sf ← from_wire_bytes frame.payload
    verify sf
    ok sf

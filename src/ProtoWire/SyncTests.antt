-- ===== src/ProtoWire/SyncTests.antt =====
-- bebop2/proto-wire/src/sync_pull.rs and framing.rs on small inputs.
use open_bebop.Prelude.{
  ◌<◌, ◌+◌, ◌≡◌, ◌↔◌, ◌⊎◌, inl, inr, refl, sym, subst, true, none, some, Elem, [], ◌∷◌, ◌++◌,
  replicate, length, contains as set_contains, insert, ok, All, arith, is_ok,
}
use open_bebop.Prelude.Bytes.{Bytes, IsByte, bytes_eq, bytes_beq, le_bytes}
use open_bebop.Prelude.Maps.{has_key, lookup, put}
use open_bebop.Prelude.Sort
use open_bebop.Prelude.ByteOrder.{bytes_le}
use open_bebop.Crypto.{Crypto, Collision}
use open_bebop.ProtoWire.SyncFrame.{
  SyncFrame, pull_scope, to_wire_bytes, from_wire_bytes, sign, verify, into_signed_frame,
  from_signed_frame, compute_content_id, scope_beq, sig_bytes,
}
use open_bebop.ProtoWire.SyncFrame.Image.{IsWire}
use open_bebop.ProtoWire.SyncFrame.Codec.{from_wire_bytes_iff}
use open_bebop.ProtoWire.SyncFrame.Envelope.{IsKeyPair, IsBody, from_signed_frame-sign}
use open_bebop.ProtoWire.MerkleLog.{MerkleLog, add, holds}
use open_bebop.ProtoWire.MerkleLog
use open_bebop.ProtoWire.MerkleLog.Root.{IsSound, new-IsSound, add-IsSound}
use open_bebop.ProtoWire.MerkleLog.Pins.{IsId, root-pins}
use open_bebop.ProtoWire.SyncPeer.{
  SyncPeer, fold_in, raise, last_seq, past, contains, pull, make_pull_request, ingest, ingest_from,
  ingest_frame, root, len,
}
use open_bebop.ProtoWire.SyncPeer
use open_bebop.ProtoWire.SyncPeer.Invariant.{
  IsConsistent, new-IsConsistent, fold_in-IsConsistent, ingest-IsConsistent,
}
use open_bebop.ProtoWire.SyncPeer.Ingest.{root-ingest, pull-converges}
use open_bebop.ProtoWire.SyncPeer.Counts.{ingest-counts, ingest-ingest}
use open_bebop.ProtoWire.Framing.{Envelope, Json, encode, decode}
use open_bebop.ProtoWire.Framing
use open_bebop.ProtoWire.Framing.Laws.{decode-encode, decode-part}

-- Every signature is good, every hash the same.
abbrev toy : Crypto
toy = record {
  sha3 = λ text. replicate 32 4;
  ed_sign = λ seed text. replicate 64 5;
  ed_verify = λ key text sig. true;
  pq_sign = λ key text random. key;
  pq_verify = λ key text sig. true;
}

abbrev frame : SyncFrame
frame = record {
  scope = pull_scope;
  content_id = replicate 32 4;
  prev = replicate 32 0;
  actor = replicate 32 1;
  seq = 3;
  payload = 7 ∷ 8 ∷ [];
  sig = some (replicate 64 5);
}

abbrev image : Bytes
image = to_wire_bytes frame

image_bytes : All IsByte image
unfolding to_wire_bytes sig_bytes le_bytes
image_bytes = omega arith

from_wire_bytes_iff_example :
    (from_wire_bytes image ≡ ok frame) ↔ (IsWire frame × (to_wire_bytes frame ≡ image))
from_wire_bytes_iff_example = from_wire_bytes_iff image frame image_bytes

key_pair : IsKeyPair toy (9 ∷ []) (replicate 32 1)
key_pair = record { width = λ m. (refl, omega arith); checks = λ m. refl }

body : IsBody toy (replicate 32 0) (replicate 32 1) 3 (7 ∷ 8 ∷ [])
body = record {
  prev_width = (refl, omega arith);
  actor_width = (refl, omega arith);
  seq_fits = omega arith;
  payload_bytes = omega arith;
  payload_size = omega arith;
}

from_signed_frame-sign_example :
    from_signed_frame toy (
      into_signed_frame toy
        (9 ∷ [])
        (sign toy pull_scope (replicate 32 0) (replicate 32 1) 3 (7 ∷ 8 ∷ []) (9 ∷ [])))
    ≡ ok (sign toy pull_scope (replicate 32 0) (replicate 32 1) 3 (7 ∷ 8 ∷ []) (9 ∷ []))
from_signed_frame-sign_example =
    from_signed_frame-sign toy (replicate 32 0) (replicate 32 1) 3 (7 ∷ 8 ∷ []) (9 ∷ []) key_pair
      (λ m. (refl, omega arith)) body

abbrev hash : Bytes → Bytes
hash text = replicate 32 4

abbrev two_ids : MerkleLog
two_ids = add (replicate 32 2) (add (replicate 32 1) MerkleLog.new)

abbrev swapped : MerkleLog
swapped = add (replicate 32 1) (add (replicate 32 2) MerkleLog.new)

two_ids-IsSound : IsSound two_ids
two_ids-IsSound = add-IsSound (replicate 32 2) _ (add-IsSound (replicate 32 1) _ new-IsSound)

swapped-IsSound : IsSound swapped
swapped-IsSound = add-IsSound (replicate 32 1) _ (add-IsSound (replicate 32 2) _ new-IsSound)

widths :
    All IsId two_ids.leaves
    × All IsId swapped.leaves
    × (length two_ids.leaves ≡ length swapped.leaves)
unfolding add insert set_contains bytes_beq
widths = ((refl, (refl, tt)), (refl, (refl, tt)), refl)

one_root : MerkleLog.root hash two_ids ≡ MerkleLog.root hash swapped
unfolding MerkleLog.root MerkleLog.root_of MerkleLog.climb MerkleLog.pair_up Sort.sort
    Sort.insert_sorted bytes_le add insert set_contains bytes_beq
one_root = refl

root-pins_example :
    ((id : Bytes) → (holds two_ids id ≡ true) ↔ (holds swapped id ≡ true)) ⊎ Collision hash
root-pins_example =
    root-pins hash (λ m. refl) two_ids swapped two_ids-IsSound swapped-IsSound widths.0 widths.1
      widths.2 one_root

abbrev author : SyncPeer
author = fold_in (replicate 32 4) frame SyncPeer.new

author-IsConsistent : IsConsistent author
author-IsConsistent = fold_in-IsConsistent (replicate 32 4) frame SyncPeer.new refl new-IsConsistent

nothing_held : (id : Bytes) → contains SyncPeer.new id ≡ true → contains author id ≡ true
unfolding has_key
nothing_held id h = cc h

frame_fits :
    (id : Bytes) (f : SyncFrame)
    → Elem (id, f) author.frames
    → (is_ok (verify toy f) ≡ true)
      × ((last_seq f.actor SyncPeer.new.max_seq < f.seq) ⊎ (contains SyncPeer.new id ≡ true))
unfolding fold_in put verify compute_content_id scope_beq bytes_beq last_seq lookup
frame_fits id f (inl e) =
    subst
      (λ (r : Bytes × SyncFrame).
        (is_ok (verify toy r.1) ≡ true)
        × ((last_seq r.1.actor SyncPeer.new.max_seq < r.1.seq)
            ⊎ (contains SyncPeer.new r.0 ≡ true)))
      (sym e) (refl, inl (omega arith))
frame_fits id f (inr none_left) = absurd none_left

pull-converges_example :
    root toy (ingest toy (pull (make_pull_request SyncPeer.new) author) SyncPeer.new).0
    ≡ root toy author
pull-converges_example =
    pull-converges toy SyncPeer.new author new-IsConsistent author-IsConsistent nothing_held
      frame_fits

root-ingest_example :
    root toy (ingest toy (frame ∷ []) SyncPeer.new).0
    ≡ root toy (ingest toy (frame ∷ frame ∷ []) SyncPeer.new).0
root-ingest_example =
    root-ingest toy (frame ∷ []) (frame ∷ frame ∷ []) SyncPeer.new new-IsConsistent repeated
  where
    repeated : (f : SyncFrame) → Elem f (frame ∷ []) ↔ Elem f (frame ∷ frame ∷ [])
    repeated f = (λ m. inr m, λ m. elim m [ inl e ↦ inl e | inr n ↦ n ])

ingest-IsConsistent_example : IsConsistent (ingest toy (frame ∷ frame ∷ []) author).0
ingest-IsConsistent_example =
    ingest-IsConsistent toy (frame ∷ frame ∷ []) author author-IsConsistent

ingest-ingest_example :
    ((ingest toy (frame ∷ []) (ingest toy (frame ∷ []) SyncPeer.new).0).0
      ≡ (ingest toy (frame ∷ []) SyncPeer.new).0)
    × ((ingest toy (frame ∷ []) (ingest toy (frame ∷ []) SyncPeer.new).0).1.added ≡ 0)
ingest-ingest_example = ingest-ingest toy (frame ∷ []) SyncPeer.new

ingest-counts_example :
    ((ingest toy (frame ∷ frame ∷ []) SyncPeer.new).1.added
        + (ingest toy (frame ∷ frame ∷ []) SyncPeer.new).1.dup
        + (ingest toy (frame ∷ frame ∷ []) SyncPeer.new).1.rejected
      ≡ length (frame ∷ frame ∷ []))
    × (len (ingest toy (frame ∷ frame ∷ []) SyncPeer.new).0
        ≡ len SyncPeer.new + (ingest toy (frame ∷ frame ∷ []) SyncPeer.new).1.added)
ingest-counts_example = ingest-counts toy (frame ∷ frame ∷ []) SyncPeer.new

abbrev envelope : Envelope
envelope = Framing.new (replicate 16 0) (7 ∷ 8 ∷ [])

-- An encoder that knows one envelope.
abbrev json : Json
json = record { to_vec = λ e. ok (9 ∷ []); from_slice = λ text. ok envelope; too_long = [] }

abbrev on_stream : Bytes
on_stream = 1 ∷ 0 ∷ 0 ∷ 0 ∷ 9 ∷ []

encoded : encode json envelope ≡ ok on_stream
unfolding encode le_bytes
encoded = refl

current_version : envelope.version ≡ 1
unfolding Framing.new
current_version = refl

decode-encode_example : decode json (on_stream ++ (5 ∷ [])) ≡ (5 ∷ [], ok (some envelope))
decode-encode_example =
    decode-encode json envelope on_stream (5 ∷ []) current_version (λ b e. refl) encoded

decode-part_example : decode json (1 ∷ 0 ∷ 0 ∷ 0 ∷ []) ≡ (1 ∷ 0 ∷ 0 ∷ 0 ∷ [], ok none)
decode-part_example =
    decode-part json envelope on_stream (1 ∷ 0 ∷ 0 ∷ 0 ∷ []) (9 ∷ []) encoded refl (omega arith)

-- ===== src/ProtoCap/Revocation.antt =====
-- bebop2/proto-cap/src/revocation.rs: the grow-only sets of revoked keys and capabilities.
pub mod Laws
use open_bebop.Prelude.{
  ℕ, Bool, true, false, ◌||◌, List, [], ◌∷◌, ltb, ◌==◌, if◌then◌else◌, contains, insert,
}
use open_bebop.Prelude.Bytes.{Bytes, bytes_eq}
use open_bebop.Prelude.ByteOrder.{bytes_le}
use open_bebop.Prelude.Sort.{sort}
use open_bebop.Crypto.{Crypto}
use open_bebop.ProtoCap.Capability.{Capability, canonical_bytes_tlv}
use open_bebop.ProtoCap.Roster.{AnchorRoster, remove}

-- Two `HashSet<[u8; 32]>`.
pub record RevocationSet : Type 0 where
  pub revoked_keys : List Bytes
  pub revoked_cap_hash : List Bytes

unfoldable pub new : RevocationSet
new = record { revoked_keys = []; revoked_cap_hash = [] }

unfoldable pub revoke_key : Bytes → RevocationSet → RevocationSet
unfolding insert
revoke_key key s = record s { revoked_keys = insert key s.revoked_keys }

unfoldable pub revoke_capability : Bytes → RevocationSet → RevocationSet
unfolding insert
revoke_capability h s = record s { revoked_cap_hash = insert h s.revoked_cap_hash }

unfoldable pub is_revoked_key : RevocationSet → Bytes → Bool
is_revoked_key s key = contains s.revoked_keys key

unfoldable pub is_revoked_capability : RevocationSet → Bytes → Bool
is_revoked_capability s h = contains s.revoked_cap_hash h

-- `HashSet::extend`.
unfoldable pub extend : List Bytes → List Bytes → List Bytes
unfolding insert
extend set [] = set
extend set (x ∷ xs) = extend (insert x set) xs

unfoldable pub merge : RevocationSet → RevocationSet → RevocationSet
unfolding extend
merge s other = record {
  revoked_keys = extend s.revoked_keys other.revoked_keys;
  revoked_cap_hash = extend s.revoked_cap_hash other.revoked_cap_hash;
}

unfoldable pub drop_anchor : AnchorRoster → Bytes → AnchorRoster
unfolding remove
drop_anchor roster key = remove key roster

-- `sort_unstable` of distinct keys; the order in which the sets are walked does not matter.
unfoldable pub gossip_payload : RevocationSet → List Bytes × List Bytes
gossip_payload s = (sort bytes_le s.revoked_keys, sort bytes_le s.revoked_cap_hash)

unfoldable pub revocation_hash : Crypto → Capability → Bytes
revocation_hash c cap = c.sha3 (canonical_bytes_tlv cap)

unfoldable pub pq_key_id : Crypto → Bytes → Bytes
pq_key_id c subject_key_pq = c.sha3 subject_key_pq

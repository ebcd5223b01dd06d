-- ===== src/ProtoCap/Revocation/Laws.antt =====
-- Queries after updates and merges in bebop2/proto-cap/src/revocation.rs.
use open_bebop.Prelude.{◌≡◌, true, ◌||◌, List, [], ◌∷◌, contains, insert, contains-insert, arith}
use mathlib.Core.List.{Perm}
use open_bebop.Prelude.Bytes.{Bytes, bytes_eq}
use open_bebop.Prelude.Sort.{sort-perm}
use open_bebop.ProtoCap.Revocation.{
  RevocationSet, revoke_key, revoke_capability, is_revoked_key, is_revoked_capability, extend,
  merge, bytes_le, gossip_payload,
}

contains-extend :
    (k : Bytes) (s xs : List Bytes) → contains (extend s xs) k ≡ (contains s k || contains xs k)
unfolding extend contains
contains-extend k s [] = ground arith
contains-extend k s (x ∷ xs) =
    ground (arith, contains-extend k (insert x s) xs, contains-insert x k s)

-- After a merge exactly the keys and capabilities are revoked that either side had revoked.
pub merge-is_union :
    (s t : RevocationSet) (k : Bytes)
    → (is_revoked_key (merge s t) k ≡ (is_revoked_key s k || is_revoked_key t k))
      × (is_revoked_capability (merge s t) k
          ≡ (is_revoked_capability s k || is_revoked_capability t k))
unfolding merge is_revoked_key is_revoked_capability
merge-is_union s t k = (
  contains-extend k s.revoked_keys t.revoked_keys,
  contains-extend k s.revoked_cap_hash t.revoked_cap_hash,
)

-- A revoked key stays revoked when more keys or capabilities are revoked, and by a merge on
-- either side.
pub revoke-is_final :
    (s t : RevocationSet) (j k : Bytes)
    → is_revoked_key s k ≡ true
    → (is_revoked_key (revoke_key j s) k ≡ true)
      × (is_revoked_key (revoke_capability j s) k ≡ true)
      × (is_revoked_key (merge s t) k ≡ true)
      × (is_revoked_key (merge t s) k ≡ true)
unfolding is_revoked_key revoke_key revoke_capability merge
revoke-is_final s t j k h = ground (
  arith,
  contains-insert j k s.revoked_keys,
  contains-extend k s.revoked_keys t.revoked_keys,
  contains-extend k t.revoked_keys s.revoked_keys,
)

-- Merging in either order revokes the same.
pub merge_comm :
    (s t : RevocationSet) (k : Bytes)
    → (is_revoked_key (merge s t) k ≡ is_revoked_key (merge t s) k)
      × (is_revoked_capability (merge s t) k ≡ is_revoked_capability (merge t s) k)
merge_comm s t k =
    let p = merge-is_union s t k in let q = merge-is_union t s k in (ground arith, ground arith)

-- Gossip carries every revoked key and capability, and nothing else.
pub gossip_payload-perm :
    (s : RevocationSet)
    → Perm (gossip_payload s).0 s.revoked_keys × Perm (gossip_payload s).1 s.revoked_cap_hash
unfolding gossip_payload
gossip_payload-perm s = (sort-perm bytes_le s.revoked_keys, sort-perm bytes_le s.revoked_cap_hash)

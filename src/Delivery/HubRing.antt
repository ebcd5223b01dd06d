-- ===== src/Delivery/HubRing.antt =====
-- bebop2/delivery-domain/src/hub_ring.rs: the hub that owns an order, and its replicas.
pub mod Laws
use open_bebop.Prelude.{
  ℕ, ◌-◌, min, Bool, true, false, Option, none, some, List, [], ◌∷◌, map, length, take, Eq, ◌≟◌,
  contains, if◌then◌else◌, ◌≡◌, ◌↔◌, ap, sym, ◌∙◌, eq_of_≟, ≟-refl,
}
use open_bebop.Prelude.Bytes.{Bytes, bytes_eq}
use open_bebop.Prelude.Sort.{sort}
use open_bebop.Prelude.ByteOrder.{bytes_le, heavier, flip}
use open_bebop.ProtoCap.Matcher.{hrw_weight}

pub record Hub : Type 0 where
  pub pubkey : Bytes

abbrev pub same_key : Hub → Hub → Bool
same_key a b = a.pubkey ≟ b.pubkey

pub same_key_iff : (a b : Hub) → (same_key a b ≡ true) ↔ (a ≡ b)
same_key_iff a b = (
  λ h i. record { pubkey = eq_of_≟ a.pubkey b.pubkey h i },
  λ e. ap (same_key a) (sym e) ∙ ≟-refl a.pubkey,
)

instance abbrev pub hub_eq : Eq Hub
hub_eq = record { beq = same_key; beq_iff = same_key_iff }

pub record Ownership : Type 0 where
  pub owner : Hub
  pub replicas : List Hub

-- The key that is compared, the greater first: weight, then public key.
abbrev pub key_order : Hub → Hub → Bool
key_order a b = flip bytes_le a.pubkey b.pubkey

-- `b.0.cmp(&a.0).then_with(|| b.1.pubkey.cmp(&a.1.pubkey))` is not `Greater`.
abbrev pub stands_before : ℕ × Hub → ℕ × Hub → Bool
stands_before a b = heavier (λ (p : ℕ × Hub). p.0) (λ x y. key_order x.1 y.1) a b

-- Weights are computed once, the pairs sorted, and the weights dropped.
unfoldable pub ranked : ℕ → List Hub → List Hub
ranked order_id hubs =
    map (λ p. p.1) (sort stands_before (map (λ h. (hrw_weight order_id h.pubkey, h)) hubs))

-- `ranked[0]` and `ranked[1..=take]`; with no hub at all the source panics.
abbrev pub ownership_of : List Hub → ℕ → Option Ownership
ownership_of [] n = none
ownership_of (owner ∷ rest) n = some (record { owner = owner; replicas = take n rest })

unfoldable pub assign : ℕ → List Hub → ℕ → Option Ownership
assign order_id hubs replica_count =
    ownership_of (ranked order_id hubs) (min replica_count (length hubs - 1))

-- `(weight, pubkey)` of `a` is not less than that of `b`.
abbrev pub outranks : ℕ → Hub → Hub → Bool
outranks order_id a b = heavier (λ h. hrw_weight order_id h.pubkey) key_order a b

-- `max_by`, which keeps the later of two elements that compare equal.
unfoldable pub max_from : ℕ → Hub → List Hub → Hub
max_from order_id best [] = best
max_from order_id best (h ∷ hubs) =
    max_from order_id (if outranks order_id h best then h else best) hubs

-- With no hub at all the source panics.
unfoldable pub owner_hub : ℕ → List Hub → Option Hub
unfolding max_from
owner_hub order_id [] = none
owner_hub order_id (h ∷ hubs) = some (max_from order_id h hubs)

abbrev pub owner_is : Hub → Option Hub → Bool
owner_is hub none = false
owner_is hub (some owner) = owner ≟ hub

unfoldable pub is_owner : ℕ → List Hub → Hub → Bool
is_owner order_id hubs hub = owner_is hub (owner_hub order_id hubs)

abbrev pub replica_in : Hub → Option Ownership → Bool
replica_in hub none = false
replica_in hub (some w) = contains w.replicas hub

unfoldable pub is_replica : ℕ → List Hub → ℕ → Hub → Bool
unfolding contains
is_replica order_id hubs replica_count hub = replica_in hub (assign order_id hubs replica_count)

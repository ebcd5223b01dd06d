-- ===== src/Delivery/HubRing/Laws.antt =====
-- Who owns an order in bebop2/delivery-domain/src/hub_ring.rs, and who takes over.
use mathlib.Core.List.{Perm}
use open_bebop.Prelude.{
  All-Elem, ℕ, suc, ◌-◌, min, ◌≡◌, ◌≢◌, refl, ap, sym, ◌∙◌, subst, true, false, not, Option, none,
  some, List, [], ◌∷◌, map, length, take, retain, Elem, inl, inr, ◌≟◌, ≟-refl, ≟_of_ne, Bool-cases,
  Distinct, contains, if◌then◌else◌, Elem-retain_to, Elem-retain_from, ◌↔◌, zero, head-injective,
  ||_false, ne_of_≟,
}
use open_bebop.Prelude.Bytes.{bytes_eq}
use open_bebop.Prelude.Sort.{sort, length-sort}
use open_bebop.Prelude.Ranking.{
  IsTotalOrder, IsFirst, IsFirst-unique, sort-IsFirst, sort-eq_of_perm, sort-map, sort-IsAscending,
  IsAscending, Elem-sort_to, Elem-sort_from, reflexive, sort-Distinct,
}
use open_bebop.Prelude.ByteOrder.{
  bytes_le, bytes_le-IsTotalOrder, heavier-IsTotalOrder, flip-IsTotalOrder,
}
use open_bebop.ProtoCap.Matcher.{hrw_weight}
use open_bebop.Delivery.HubRing.{
  Hub, hub_eq, Ownership, key_order, stands_before, ranked, ownership_of, assign, outranks,
  max_from, owner_hub,
}

hubs_set : IsSet (List Hub)
hubs_set = hlevel

key_order-IsTotalOrder : IsTotalOrder key_order
key_order-IsTotalOrder =
    let o = flip-IsTotalOrder bytes_le bytes_le-IsTotalOrder in
    record {
      total = λ a b h. o.total a.pubkey b.pubkey h;
      trans = λ a b c h k. o.trans a.pubkey b.pubkey c.pubkey h k;
      antisymm = λ a b h k i. record { pubkey = o.antisymm a.pubkey b.pubkey h k i };
    }

module _ (order_id : ℕ) where
  pub outranks-IsTotalOrder : IsTotalOrder (outranks order_id)
  outranks-IsTotalOrder =
      heavier-IsTotalOrder (λ h. hrw_weight order_id h.pubkey) key_order key_order-IsTotalOrder

  -- The hub that every other hub of the set stands behind.
  abbrev pub IsOwner : Hub → List Hub → Type 0
  IsOwner h hubs = IsFirst (outranks order_id) outranks-IsTotalOrder h hubs

  drop_weights :
      (hubs : List Hub)
      → map (λ (p : ℕ × Hub). p.1) (map (λ h. (hrw_weight order_id h.pubkey, h)) hubs) ≡ hubs
  drop_weights [] = refl
  drop_weights (h ∷ hubs) = ap (◌∷◌ h) (drop_weights hubs)

  -- The transform by way of weights sorts by the comparison itself.
  ranked-eq-sort : (hubs : List Hub) → ranked order_id hubs ≡ sort (outranks order_id) hubs
  unfolding ranked
  ranked-eq-sort hubs =
      ap (map (λ (p : ℕ × Hub). p.1))
        (sort-map stands_before (λ h. (hrw_weight order_id h.pubkey, h)) hubs)
      ∙ drop_weights (sort (outranks order_id) hubs)

  max_from-IsOwner :
      (best : Hub) (hubs : List Hub) → IsOwner (max_from order_id best hubs) (best ∷ hubs)
  unfolding max_from
  max_from-IsOwner best [] = (inl refl, below)
    where
      below : (b : Hub) → Elem b (best ∷ []) → outranks order_id best b ≡ true
      below b (inl e) = rw e (reflexive (outranks order_id) outranks-IsTotalOrder best)
      below b (inr none_left) = absurd none_left
  max_from-IsOwner best (h ∷ hubs) = elim (Bool-cases (outranks order_id h best)) [
    | inl t ↦
        subst (λ m. IsOwner m (best ∷ h ∷ hubs))
          (ap (λ c. max_from order_id (if c then h else best) hubs) (sym t))
          (newer t (max_from-IsOwner h hubs))
    | inr f ↦
        subst (λ m. IsOwner m (best ∷ h ∷ hubs))
          (ap (λ c. max_from order_id (if c then h else best) hubs) (sym f))
          (older f (max_from-IsOwner best hubs))
  ]
    where
      newer :
          {m : Hub}
          → outranks order_id h best ≡ true
          → IsOwner m (h ∷ hubs)
          → IsOwner m (best ∷ h ∷ hubs)
      newer {m} t (here, below) = (inr here, all)
        where
          all : (b : Hub) → Elem b (best ∷ h ∷ hubs) → outranks order_id m b ≡ true
          all b (inl e) = rw e (outranks-IsTotalOrder.trans m h best (below h (inl refl)) t)
          all b (inr n) = below b n

      older :
          {m : Hub}
          → outranks order_id h best ≡ false
          → IsOwner m (best ∷ hubs)
          → IsOwner m (best ∷ h ∷ hubs)
      older {m} f (here, below) = (member here, all)
        where
          member : Elem m (best ∷ hubs) → Elem m (best ∷ h ∷ hubs)
          member (inl e) = inl e
          member (inr n) = inr (inr n)

          all : (b : Hub) → Elem b (best ∷ h ∷ hubs) → outranks order_id m b ≡ true
          all b (inl e) = below b (inl e)
          all b (inr (inl e)) = rw e (
              outranks-IsTotalOrder.trans m best h (below best (inl refl))
                (outranks-IsTotalOrder.total h best f))
          all b (inr (inr n)) = below b (inr n)

  owner_of_some : {x h : Hub} → some x ≡ some h → x ≡ h
  owner_of_some {x} e = ap (get x) e
    where
      get : Hub → Option Hub → Hub
      get d none = d
      get d (some h) = h

  owner_hub-IsOwner :
      (hubs : List Hub) (h : Hub) → owner_hub order_id hubs ≡ some h → IsOwner h hubs
  unfolding owner_hub
  owner_hub-IsOwner [] h e = cc
  owner_hub-IsOwner (x ∷ hubs) h e =
      subst (λ z. IsOwner z (x ∷ hubs)) (owner_of_some e) (max_from-IsOwner x hubs)

  owner_hub_of_IsOwner :
      (hubs : List Hub) (h : Hub) → IsOwner h hubs → owner_hub order_id hubs ≡ some h
  unfolding owner_hub
  owner_hub_of_IsOwner [] h (m, below) = absurd m
  owner_hub_of_IsOwner (x ∷ hubs) h v = ap some (
      IsFirst-unique (outranks order_id) outranks-IsTotalOrder (max_from order_id x hubs) h
        (x ∷ hubs) (max_from-IsOwner x hubs) v)

  -- `owner_hub` names a hub exactly when it is in the set and no hub of the set outranks it by weight
  -- and then by public key.
  pub owner_hub_iff :
      (hubs : List Hub) (h : Hub) → (owner_hub order_id hubs ≡ some h) ↔ IsOwner h hubs
  owner_hub_iff hubs h = (owner_hub-IsOwner hubs h, owner_hub_of_IsOwner hubs h)

  -- What an assignment says of the ranking.
  assign_parts :
      (hubs : List Hub) (n : ℕ) (w : Ownership)
      → assign order_id hubs n ≡ some w
      → (rest : List Hub) × (sort (outranks order_id) hubs ≡ w.owner ∷ rest)
        × (w.replicas ≡ take (min n (length hubs - 1)) rest)
  unfolding assign
  assign_parts hubs n w e =
      from (sort (outranks order_id) hubs)
        (sym (ap (λ r. ownership_of r (min n (length hubs - 1))) (ranked-eq-sort hubs)) ∙ e)
    where
      get : Ownership → Option Ownership → Ownership
      get d none = d
      get d (some v) = v

      from :
          (xs : List Hub)
          → ownership_of xs (min n (length hubs - 1)) ≡ some w
          → (rest : List Hub) × (xs ≡ w.owner ∷ rest)
            × (w.replicas ≡ take (min n (length hubs - 1)) rest)
      from [] h = cc
      from (x ∷ xs) h =
          let v : Ownership = record { owner = x; replicas = take (min n (length hubs - 1)) xs } in
          let same : v ≡ w = ap (get v) h in
          (
            xs,
            ap (λ (o : Ownership). o.owner ∷ xs) same,
            sym (ap (λ (o : Ownership). o.replicas) same),
          )

  -- The single scan and the full sort choose the same owner.
  pub owner_hub-assign :
      (hubs : List Hub) (n : ℕ) (w : Ownership)
      → assign order_id hubs n ≡ some w
      → owner_hub order_id hubs ≡ some w.owner
  owner_hub-assign hubs n w e =
      let (rest, order, _) = assign_parts hubs n w e in
      owner_hub_of_IsOwner hubs w.owner
        (sort-IsFirst (outranks order_id) outranks-IsTotalOrder w.owner rest hubs order)

  -- Every node that knows the same hubs, in whatever order, assigns the same owner and replicas.
  pub assign-eq_of_perm :
      (hubs others : List Hub) (n : ℕ)
      → Perm hubs others
      → assign order_id hubs n ≡ assign order_id others n
  unfolding assign
  assign-eq_of_perm hubs others n p =
      let same = sort-eq_of_perm (outranks order_id) outranks-IsTotalOrder hubs_set p in
      let order : ranked order_id hubs ≡ ranked order_id others =
        ranked-eq-sort hubs ∙ same ∙ sym (ranked-eq-sort others) in
      let size : length hubs ≡ length others =
        sym (length-sort (outranks order_id) hubs)
        ∙ ap length same
        ∙ length-sort (outranks order_id) others in
      λ i. ownership_of (order i) (min n (size i - 1))

  -- When a hub other than the owner leaves, the owner stays.
  pub owner_hub-leave :
      (hubs : List Hub) (owner gone : Hub)
      → owner_hub order_id hubs ≡ some owner
      → owner ≢ gone
      → owner_hub order_id (retain (λ h. not (h ≟ gone)) hubs) ≡ some owner
  owner_hub-leave hubs owner gone e ne =
      let (here, below) = owner_hub-IsOwner hubs owner e in
      let stays : not (owner ≟ gone) ≡ true = ap not (≟_of_ne owner gone ne) in
      owner_hub_of_IsOwner (retain (λ h. not (h ≟ gone)) hubs) owner (
        Elem-retain_from (λ h. not (h ≟ gone)) owner hubs here stays,
        λ b m. below b (Elem-retain_to (λ h. not (h ≟ gone)) b hubs m).0,
      )

  take_head :
      (k : ℕ) (rest : List Hub) {next : Hub} {later : List Hub}
      → take k rest ≡ next ∷ later
      → (behind : List Hub) × (rest ≡ next ∷ behind)
  take_head zero rest e = cc
  take_head (suc k) [] e = cc
  take_head (suc k) (x ∷ rest) e = (rest, ap (λ h. h ∷ rest) (head-injective e))

  takes_over :
      (hubs : List Hub) (owner next : Hub) (behind : List Hub)
      → Distinct hubs
      → sort (outranks order_id) hubs ≡ owner ∷ next ∷ behind
      → owner_hub order_id (retain (λ h. not (h ≟ owner)) hubs) ≡ some next
  takes_over hubs owner next behind d order =
      owner_hub_of_IsOwner (retain (λ h. not (h ≟ owner)) hubs) next (
        Elem-retain_from (λ h. not (h ≟ owner)) next hubs
            (Elem-sort_to (outranks order_id) next hubs
              (subst (Elem next) (sym order) (inr (inl refl))))
            (ap not (≟_of_ne next owner (λ e. apart (sym e)))),
        below,
      )
    where
      asc : IsAscending (outranks order_id) outranks-IsTotalOrder (owner ∷ next ∷ behind)
      asc =
          subst (IsAscending (outranks order_id) outranks-IsTotalOrder) order
            (sort-IsAscending (outranks order_id) outranks-IsTotalOrder hubs)

      apart : owner ≢ next
      apart =
          let (p, _) = ||_false (owner ≟ next) (contains behind owner) (
            unfold contains in
            (subst Distinct order (sort-Distinct (outranks order_id) hubs d)).0) in
          ne_of_≟ owner next p

      place :
          {b : Hub}
          → Elem b (owner ∷ next ∷ behind)
          → (not (b ≟ owner)) ≡ true
          → outranks order_id next b ≡ true
      place {b} (inl e) k = cc (ap (λ z. not (z ≟ owner)) e, ap not (≟-refl owner), k)
      place (inr (inl e)) k = rw e (reflexive (outranks order_id) outranks-IsTotalOrder next)
      place {b} (inr (inr m)) k = All-Elem (λ z. outranks order_id next z ≡ true) b behind asc.1.0 m

      below :
          (b : Hub) → Elem b (retain (λ h. not (h ≟ owner)) hubs) → outranks order_id next b ≡ true
      below b m =
          let (here, k) = Elem-retain_to (λ h. not (h ≟ owner)) b hubs m in
          place (subst (Elem b) order (Elem-sort_from (outranks order_id) b hubs here)) k

  -- When the owner leaves a set of distinct hubs, its first replica owns the order.
  pub owner_hub-failover :
      (hubs : List Hub) (n : ℕ) (w : Ownership) (next : Hub) (later : List Hub)
      → Distinct hubs
      → assign order_id hubs n ≡ some w
      → w.replicas ≡ next ∷ later
      → owner_hub order_id (retain (λ h. not (h ≟ w.owner)) hubs) ≡ some next
  owner_hub-failover hubs n w next later d e r =
      let (rest, order, reps) = assign_parts hubs n w e in
      let (behind, next_up) = take_head (min n (length hubs - 1)) rest (sym reps ∙ r) in
      takes_over hubs w.owner next behind d (order ∙ ap (◌∷◌ w.owner) next_up)

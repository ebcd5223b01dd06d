-- ===== src/Delivery/Pod/Quorum.antt =====
-- When a claim of bebop2/delivery-domain/src/pod.rs is settled, and what its digest binds.
use open_bebop.Prelude.{
  ℕ, ◌≤◌, ◌<◌, ◌≡◌, refl, ap, sym, ◌∙◌, subst, ◌↔◌, ◌⊎◌, inl, inr, Bool, true, false, not, List, [],
  ◌∷◌, map, length, append-injective, retain, leb, leb→le, ◌==◌, ==_iff, ◌≟◌, eq_of_≟, ne_of_≟,
  if◌then◌else◌, insert, contains, nat_eq, Distinct, Distinct-retain, Elem, Elem-retain_to,
  contains→Elem, Bool-cases, ok, >>=-eq-ok, arith, map-append,
}
use open_bebop.Prelude.Bytes.{bytes_eq, IsU64, le_bytes, length-le_bytes, le_bytes-injective}
use open_bebop.Prelude.Sets.{length-le_of_subset, Distinct-snoc, Elem→false, Elem-append_to}
use open_bebop.Crypto.{Crypto, Collision}
use open_bebop.Delivery.Pod.{
  HybridSig, DeliveryClaim, canonical_claim, add_sig, digest, verify_one, verified, valid_signers,
  is_settled,
}

-- One signature to a signer, and signers that are enrolled.
pub record IsCollected (claim : DeliveryClaim) : Type 0 where
  pub once : Distinct (map (λ (s : ℕ × HybridSig). s.0) claim.sigs)
  pub enrolled :
      (idx : ℕ) (sig : HybridSig) → Elem (idx, sig) claim.sigs → idx < length claim.signers

Elem-key :
    (sigs : List (ℕ × HybridSig)) (idx : ℕ)
    → Elem idx (map (λ (s : ℕ × HybridSig). s.0) sigs)
    → (sig : HybridSig) × Elem (idx, sig) sigs
Elem-key [] idx m = absurd m
Elem-key ((k, s) ∷ sigs) idx (inl e) = (s, inl (λ i. (e i, s)))
Elem-key ((k, s) ∷ sigs) idx (inr m) = let (t, n) = Elem-key sigs idx m in (t, inr n)

leb_false→lt : (a b : ℕ) → leb a b ≡ false → b < a
leb_false→lt a b h = ground arith

le→leb : (a b : ℕ) → a ≤ b → leb a b ≡ true
le→leb a b h = ground arith

-- Adding a signature, or refusing one of an index out of range, keeps one signature to a signer.
pub add_sig-IsCollected :
    (idx : ℕ) (sig : HybridSig) (claim : DeliveryClaim)
    → IsCollected claim
    → IsCollected (add_sig idx sig claim).0
unfolding add_sig
add_sig-IsCollected idx sig claim s = elim (Bool-cases (leb (length claim.signers) idx)) [
  | inl t ↦ rw t s
  | inr f ↦ rw f (record {
    once = rw (map-append (λ (s : ℕ × HybridSig). s.0) kept ((idx, sig) ∷ [])) (
        Distinct-snoc (map (λ (s : ℕ × HybridSig). s.0) kept) idx
          (Distinct-retain (λ (s : ℕ × HybridSig). s.0) other claim.sigs s.once)
          (Elem→false idx _ gone));
    enrolled = λ k t m. elim (Elem-append_to (k, t) kept ((idx, sig) ∷ []) m) [
      | inl n ↦ s.enrolled k t (Elem-retain_to other (k, t) claim.sigs n).0
      | inr n ↦ elim n [
        | inl e ↦
            omega
              (arith, ap (λ (r : ℕ × HybridSig). r.0) e, leb_false→lt (length claim.signers) idx f)
        | inr z ↦ absurd z
      ]
    ];
  })
]
  where
    other : ℕ × HybridSig → Bool
    other s = not (s.0 == idx)

    kept : List (ℕ × HybridSig)
    kept = retain other claim.sigs

    gone : Elem idx (map (λ (s : ℕ × HybridSig). s.0) kept) → ⊥
    gone m =
        let (t, n) = Elem-key kept idx m in
        cc ((==_iff idx idx).1 refl, (Elem-retain_to other (idx, t) claim.sigs n).1)

Elem-insert_to : (a key : ℕ) (set : List ℕ) → Elem a (insert key set) → (a ≡ key) ⊎ Elem a set
unfolding insert
Elem-insert_to a key set m = elim (Bool-cases (contains set key)) [
  | inl t ↦ inr (rw (t, if◌then◌else◌) at m)
  | inr f ↦ rw (f, if◌then◌else◌) at m
]

Elem-insert_new : (key : ℕ) (set : List ℕ) → Elem key (insert key set)
unfolding insert
Elem-insert_new key set = elim (Bool-cases (contains set key)) [
  | inl t ↦ rw t (contains→Elem set key t)
  | inr f ↦ rw f (inl refl)
]

Elem-insert_old : (a key : ℕ) (set : List ℕ) → Elem a set → Elem a (insert key set)
unfolding insert
Elem-insert_old a key set m = elim (Bool-cases (contains set key)) [
  | inl t ↦ rw t m
  | inr f ↦ rw f (inr m)
]

insert-Distinct : (key : ℕ) (set : List ℕ) → Distinct set → Distinct (insert key set)
unfolding insert
insert-Distinct key set d = elim (Bool-cases (contains set key)) [
  | inl t ↦ rw t d
  | inr f ↦ rw f (f, d)
]

module _ (c : Crypto) where
  -- A signature of the list, of this index, that verifies.
  abbrev pub Backed : DeliveryClaim → List (ℕ × HybridSig) → ℕ → Type 0
  Backed claim sigs idx =
      (sig : HybridSig) × Elem (idx, sig) sigs × (verify_one c claim idx sig ≡ ok true)

  record IsVerified (claim : DeliveryClaim) (sigs : List (ℕ × HybridSig)) (set : List ℕ)
      : Type 0 where
    distinct : Distinct set
    backed : (i : ℕ) → Elem i set → Backed claim sigs i
    complete : (i : ℕ) → Backed claim sigs i → Elem i set

  verified-IsVerified :
      (claim : DeliveryClaim) (sigs : List (ℕ × HybridSig)) (set : List ℕ)
      → verified c claim sigs ≡ ok set
      → IsVerified claim sigs set
  unfolding verified
  verified-IsVerified claim [] set h =
      let e : [] ≡ set = cc h in
      subst (IsVerified claim []) e
        (record { distinct = tt; backed = λ i m. absurd m; complete = λ i b. absurd b.1 })
  verified-IsVerified claim ((idx, sig) ∷ sigs) set h =
      let (valid, at, h₁) = >>=-eq-ok (verify_one c claim idx sig) _ h in
      let (others, rest, h₂) = >>=-eq-ok (verified c claim sigs) _ h₁ in
      let ih = verified-IsVerified claim sigs others rest in
      let e : (if valid then insert idx others else others) ≡ set = cc h₂ in
      subst (IsVerified claim ((idx, sig) ∷ sigs)) e (step valid others at ih)
    where
      step :
          (valid : Bool) (others : List ℕ)
          → verify_one c claim idx sig ≡ ok valid
          → IsVerified claim sigs others
          → IsVerified claim ((idx, sig) ∷ sigs) (if valid then insert idx others else others)
      step true others at v = record {
        distinct = insert-Distinct idx others v.distinct;
        backed = λ i m. elim (Elem-insert_to i idx others m) [
          | inl e ↦ (sig, inl (λ j. (e j, sig)), rw e at)
          | inr n ↦ let (s, p, t) = v.backed i n in (s, inr p, t)
        ];
        complete = λ i (s, p, t). elim p [
          | inl e ↦
              subst (λ k. Elem k (insert idx others)) (sym (ap (λ (r : ℕ × HybridSig). r.0) e))
                (Elem-insert_new idx others)
          | inr n ↦ Elem-insert_old i idx others (v.complete i (s, n, t))
        ];
      }
      step false others at v = record {
        distinct = v.distinct;
        backed = λ i m. let (s, p, t) = v.backed i m in (s, inr p, t);
        complete = λ i (s, p, t). elim p [
          | inl e ↦ absurd (cc (t, at, ap (λ (r : ℕ × HybridSig). verify_one c claim r.0 r.1) e))
          | inr n ↦ v.complete i (s, n, t)
        ];
      }

  -- Enough distinct indices, each with a signature that verifies.
  abbrev pub Quorum : DeliveryClaim → Type 0
  Quorum claim =
      (set : List ℕ) × Distinct set
      × (claim.threshold ≤ length set)
      × ((i : ℕ) → Elem i set → Backed claim claim.sigs i)

  -- Where the test of settlement returns, it says whether there are `threshold` distinct indices
  -- each of which has a signature that verifies against its enrolled keys.
  pub is_settled_iff :
      (claim : DeliveryClaim) (settled : Bool)
      → is_settled c claim ≡ ok settled
      → (settled ≡ true) ↔ Quorum claim
  unfolding is_settled valid_signers
  is_settled_iff claim settled h =
      let (n, counted, h₁) = >>=-eq-ok (valid_signers c claim) _ h in
      let (set, found, h₂) = >>=-eq-ok (verified c claim claim.sigs) _ counted in
      let v = verified-IsVerified claim claim.sigs set found in
      let size : length set ≡ n = cc h₂ in
      let test : leb claim.threshold n ≡ settled = cc h₁ in
      (
        λ t. (set, v.distinct, omega (arith, size, leb→le claim.threshold n (test ∙ t)), v.backed),
        λ (q, d, enough, backed).
            sym test
            ∙ le→leb claim.threshold n (
                omega (
                  arith,
                  enough,
                  size,
                  length-le_of_subset q set d (λ i m. v.complete i (backed i m)),
                )),
      )

  -- Two claims with one digest are of the same order, place and time, or the hash shows a collision.
  pub digest-pins :
      (a b : DeliveryClaim)
      → IsU64 a.order_id
      → IsU64 b.order_id
      → IsU64 (length a.location)
      → IsU64 (length b.location)
      → IsU64 a.timestamp
      → IsU64 b.timestamp
      → digest c a ≡ digest c b
      → ((a.order_id ≡ b.order_id) × (a.location ≡ b.location) × (a.timestamp ≡ b.timestamp))
        ⊎ Collision c.sha3
  unfolding digest canonical_claim
  digest-pins a b oa ob la lb ta tb e =
      let x = canonical_claim a.order_id a.location a.timestamp in
      let y = canonical_claim b.order_id b.location b.timestamp in
      elim (Bool-cases (x ≟ y)) [
        | inl t ↦
            let (e₁, r₁) =
              append-injective (le_bytes 8 a.order_id) (le_bytes 8 b.order_id) _ _
                (length-le_bytes 8 a.order_id ∙ sym (length-le_bytes 8 b.order_id))
                (eq_of_≟ x y t) in
            let (e₂, r₂) =
              append-injective (le_bytes 8 (length a.location)) (le_bytes 8 (length b.location)) _ _
                (length-le_bytes 8 (length a.location)
                  ∙ sym (length-le_bytes 8 (length b.location)))
                r₁ in
            let same = le_bytes-injective 8 (length a.location) (length b.location) la lb e₂ in
            let (e₃, r₃) = append-injective a.location b.location _ _ same r₂ in
            inl (
              le_bytes-injective 8 a.order_id b.order_id oa ob e₁,
              e₃,
              le_bytes-injective 8 a.timestamp b.timestamp ta tb r₃,
            )
        | inr n ↦ inr (record { left = x; right = y; differ = ne_of_≟ x y n; same_hash = e })
      ]

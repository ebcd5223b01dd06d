-- ===== src/ProtoWire/Bpv7/Custody.antt =====
-- The queue of bebop2/proto-wire/src/bpv7.rs and its index of waiting nonces, in step.
use open_bebop.Prelude.{
  ◌≡◌, ◌≢◌, refl, sym, ap, ◌∙◌, Bool, true, false, not, ◌&&◌, List, [], ◌∷◌, ◌++◌, map-append,
  retain, Elem, ◌⊎◌, inl, inr, contains, Distinct, ◌≟◌, ≟-refl, eq_of_≟, ne_of_≟, ≟_of_ne,
  Bool-cases, ||_false, retain_ext, retain-retain, retain-append, retain-map, Elem-contains-map,
  Distinct-retain, append-nil, &&_comm,
}
use open_bebop.Prelude.Bytes.{Bytes, bytes_eq}
use open_bebop.ProtoWire.Bpv7.Bundle.{Bundle}
use open_bebop.ProtoWire.Bpv7.StoreForward.{
  StoreForward, new, enqueue, remove_nonce, without, ack, nonces,
}

abbrev pub nonce_of : Bundle → Bytes
nonce_of b = b.primary.nonce

abbrev pub dest_of : Bundle → Bytes
dest_of b = b.primary.dest

-- What the queue holds for a destination, oldest first.
abbrev pub addressed : Bytes → List Bundle → List Bundle
addressed dest bs = retain (λ b. dest_of b ≟ dest) bs

pub record IsConsistent (s : StoreForward) : Type 0 where
  pub distinct : Distinct (nonces s.queue)
  pub indexed : (dest : Bytes) → s.undelivered dest ≡ nonces (addressed dest s.queue)

abbrev pub others : Bytes → Bundle → Bool
others nonce b = not (nonce_of b ≟ nonce)

-- Removing the one bundle with a nonce is filtering it out.
pub remove-retain :
    (nonce : Bytes) (bs : List Bundle)
    → Distinct (nonces bs)
    → remove_nonce nonce bs ≡ retain (others nonce) bs
unfolding remove_nonce
remove-retain nonce [] h = refl
remove-retain nonce (b ∷ bs) h = elim (Bool-cases (nonce_of b ≟ nonce)) [
  | inl t ↦ rw t (sym (keeps_all bs (λ x m. apart t x m)))
  | inr f ↦ rw f (ap (◌∷◌ b) (remove-retain nonce bs h.1))
]
  where
    keeps_all :
        (xs : List Bundle)
        → ((x : Bundle) → Elem x xs → others nonce x ≡ true)
        → retain (others nonce) xs ≡ xs
    keeps_all [] k = refl
    keeps_all (x ∷ xs) k = rw (k x (inl refl)) (ap (◌∷◌ x) (keeps_all xs (λ y m. k y (inr m))))

    apart : (nonce_of b ≟ nonce) ≡ true → (x : Bundle) → Elem x bs → others nonce x ≡ true
    apart t x m =
        let here = Elem-contains-map nonce_of bs x m in
        ap not (
          ≟_of_ne (nonce_of x) nonce (λ e.
            cc (h.0, ap (contains (nonces bs)) (e ∙ sym (eq_of_≟ (nonce_of b) nonce t)), here)))

pub new-IsConsistent : IsConsistent new
unfolding new
new-IsConsistent = record { distinct = tt; indexed = λ dest. refl }

Distinct-push :
    (bs : List Bundle) (b : Bundle)
    → Distinct (nonces bs)
    → contains (nonces bs) (nonce_of b) ≡ false
    → Distinct (nonces (bs ++ b ∷ []))
unfolding contains
Distinct-push [] b h f = (refl, tt)
Distinct-push (x ∷ bs) b h f =
    let (apart, later) = ||_false (nonce_of b ≟ nonce_of x) (contains (nonces bs) (nonce_of b)) f in
    (contains-push bs x b h.0 (flip apart), Distinct-push bs b h.1 later)
  where
    flip : (nonce_of b ≟ nonce_of x) ≡ false → (nonce_of x ≟ nonce_of b) ≡ false
    flip q = ≟_of_ne (nonce_of x) (nonce_of b) (λ e. ne_of_≟ (nonce_of b) (nonce_of x) q (sym e))

    contains-push :
        (bs : List Bundle) (x b : Bundle)
        → contains (nonces bs) (nonce_of x) ≡ false
        → (nonce_of x ≟ nonce_of b) ≡ false
        → contains (nonces (bs ++ b ∷ [])) (nonce_of x) ≡ false
    contains-push [] x b h q = rw q
    contains-push (y ∷ bs) x b h q =
        let (a, l) = ||_false (nonce_of x ≟ nonce_of y) (contains (nonces bs) (nonce_of x)) h in
        rw a (contains-push bs x b l q)

-- While index and queue are in step, enqueueing a bundle with a nonce that is not in the queue
-- keeps them in step.
pub enqueue-IsConsistent :
    (b : Bundle) (s : StoreForward)
    → IsConsistent s
    → contains (nonces s.queue) (nonce_of b) ≡ false
    → IsConsistent (enqueue b s)
unfolding enqueue
enqueue-IsConsistent b s v fresh = record {
  distinct = Distinct-push s.queue b v.distinct fresh;
  indexed = λ dest. index dest (Bool-cases (dest ≟ dest_of b));
}
  where
    q : List Bundle
    q = s.queue

    index :
        (dest : Bytes)
        → ((dest ≟ dest_of b) ≡ true) ⊎ ((dest ≟ dest_of b) ≡ false)
        → (enqueue b s).undelivered dest ≡ nonces (addressed dest (q ++ b ∷ []))
    index dest (inl t) =
        let e = eq_of_≟ dest (dest_of b) t in
        let mine : (dest_of b ≟ dest) ≡ true = rw e (≟-refl (dest_of b)) in
        rw
          (
            t,
            retain-append (λ x. dest_of x ≟ dest) q (b ∷ []),
            mine,
            map-append nonce_of (addressed dest q) (b ∷ []),
          )
          (ap (λ v. v ++ nonce_of b ∷ []) (ap s.undelivered (sym e) ∙ v.indexed dest))
    index dest (inr f) =
        let other : (dest_of b ≟ dest) ≡ false =
          ≟_of_ne (dest_of b) dest (λ e. ne_of_≟ dest (dest_of b) f (sym e)) in
        rw
          (
            f,
            retain-append (λ x. dest_of x ≟ dest) q (b ∷ []),
            other,
            map-append nonce_of (addressed dest q) [],
          )
          (v.indexed dest ∙ sym (append-nil (nonces (addressed dest q))))

-- Only bundles for `dest` carry the nonce.
abbrev pub Owns : Bytes → Bytes → List Bundle → Type 0
Owns dest nonce bs = (b : Bundle) → Elem b bs → nonce_of b ≡ nonce → dest_of b ≡ dest

-- What an ack from the destination of the bundle does, for every destination.
pub ack_by_owner :
    (dest nonce : Bytes) (s : StoreForward)
    → IsConsistent s
    → Owns dest nonce s.queue
    → IsConsistent (ack dest nonce s)
      × ((ack dest nonce s).queue ≡ retain (others nonce) s.queue)
      × ((d : Bytes) → d ≢ dest → addressed d (ack dest nonce s).queue ≡ addressed d s.queue)
unfolding ack
ack_by_owner dest nonce s v owns = (
  record {
    distinct =
        rw (remove-retain nonce s.queue v.distinct)
          (Distinct-retain nonce_of (others nonce) s.queue v.distinct);
    indexed = λ d. index d (Bool-cases (d ≟ dest));
  },
  remove-retain nonce s.queue v.distinct,
  λ d ne. rw (remove-retain nonce s.queue v.distinct) (untouched d ne),
)
  where
    q : List Bundle
    q = s.queue

    untouched : (d : Bytes) → d ≢ dest → addressed d (retain (others nonce) q) ≡ addressed d q
    untouched d ne =
        retain-retain (λ x. dest_of x ≟ d) (others nonce) q
        ∙ retain_ext (λ x. others nonce x && (dest_of x ≟ d)) (λ x. dest_of x ≟ d) q
            λ x m. same x m (Bool-cases (nonce_of x ≟ nonce))
      where
        same :
            (x : Bundle)
            → Elem x q
            → ((nonce_of x ≟ nonce) ≡ true) ⊎ ((nonce_of x ≟ nonce) ≡ false)
            → (others nonce x && (dest_of x ≟ d)) ≡ (dest_of x ≟ d)
        same x m (inl t) =
            let away : (dest_of x ≟ d) ≡ false =
              ≟_of_ne (dest_of x) d (λ e. ne (sym e ∙ owns x m (eq_of_≟ (nonce_of x) nonce t))) in
            rw (t, away)
        same x m (inr f) = rw f

    commute :
        (d : Bytes) → retain (others nonce) (addressed d q) ≡ addressed d (retain (others nonce) q)
    commute d =
        retain-retain (others nonce) (λ x. dest_of x ≟ d) q
        ∙ retain_ext (λ x. (dest_of x ≟ d) && others nonce x)
            (λ x. others nonce x && (dest_of x ≟ d)) q
            (λ x m. &&_comm (dest_of x ≟ d) (others nonce x))
        ∙ sym (retain-retain (λ x. dest_of x ≟ d) (others nonce) q)

    index :
        (d : Bytes)
        → ((d ≟ dest) ≡ true) ⊎ ((d ≟ dest) ≡ false)
        → (ack dest nonce s).undelivered d ≡ nonces (addressed d (remove_nonce nonce q))
    index d (inl t) =
        let e = eq_of_≟ d dest t in
        rw (t, remove-retain nonce q v.distinct)
          (ap (without nonce) (ap s.undelivered (sym e) ∙ v.indexed d)
            ∙ retain-map nonce_of (λ n. not (n ≟ nonce)) (addressed d q)
            ∙ ap nonces (commute d))
    index d (inr f) =
        rw (f, remove-retain nonce q v.distinct)
          (v.indexed d ∙ ap nonces (sym (untouched d (ne_of_≟ d dest f))))

-- ===== src/Core/EventLog/Chain.antt =====
-- The hash chain of bebop2/core/src/event_log.rs: appending, rebuilding and tampering.
use open_bebop.Prelude.{
  ℕ, ◌+◌, ◌≡◌, refl, sym, ap, ◌∙◌, ◌⊎◌, inl, inr, List, [], ◌∷◌, ◌++◌, map, append_assoc,
  append-nil, map-append, length, length-append, if◌then◌else◌, ok, ◌≟◌, ≟-refl, eq_of_≟, ne_of_≟,
  Bool-cases, All, append-injective, arith,
}
use open_bebop.Prelude.Bytes.{Bytes, be_bytes, be_bytes-injective, length-be_bytes, bytes_eq, IsU64}
use open_bebop.Crypto.{Collision}
use open_bebop.Core.EventLog.{
  Entry, EventLog, genesis, chain_input, new, last_hash, root_hash, len, snapshot_payloads, entry,
  append, append_all, rebuild_from_payloads, verify_from, verify,
}

last_hash-append :
    (prev : Bytes) (es fs : List Entry)
    → last_hash prev (es ++ fs) ≡ last_hash (last_hash prev es) fs
unfolding last_hash
last_hash-append prev [] fs = refl
last_hash-append prev (e ∷ es) fs = last_hash-append e.hash es fs

module _ (h : Bytes → Bytes) where
  verify_from-push :
      (prev : Bytes) (es : List Entry) (seq : ℕ) (payload : Bytes)
      → verify_from h prev (es ++ entry h (last_hash prev es) seq payload ∷ [])
        ≡ verify_from h prev es
  unfolding verify_from last_hash entry
  verify_from-push prev [] seq payload = rw (≟-refl (h (chain_input prev seq payload)))
  verify_from-push prev (e ∷ es) seq payload =
      elim (Bool-cases (h (chain_input prev e.seq e.payload) ≟ e.hash)) [
        | inl t ↦ rw t (verify_from-push e.hash es seq payload)
        | inr f ↦ rw f
      ]

  -- Appending neither breaks a chain nor mends one: the verdict, error included, stays.
  pub verify-append :
      (log : EventLog) (payload : Bytes) → verify h (append h log payload).0 ≡ verify h log
  unfolding verify append
  verify-append log payload = verify_from-push genesis log.entries (length log.entries) payload

  verify-append_all :
      (log : EventLog) (ps : List Bytes) → verify h (append_all h log ps) ≡ verify h log
  unfolding append_all
  verify-append_all log [] = refl
  verify-append_all log (p ∷ ps) = verify-append_all (append h log p).0 ps ∙ verify-append log p

  -- A log rebuilt from payloads passes verification.
  pub verify-rebuild : (ps : List Bytes) → verify h (rebuild_from_payloads h ps) ≡ ok tt
  unfolding rebuild_from_payloads verify
  verify-rebuild ps = verify-append_all new ps

  snapshot-append_all :
      (log : EventLog) (ps : List Bytes)
      → snapshot_payloads (append_all h log ps) ≡ snapshot_payloads log ++ ps
  unfolding append_all snapshot_payloads
  snapshot-append_all log [] = sym (append-nil _)
  snapshot-append_all log (p ∷ ps) =
      snapshot-append_all (append h log p).0 ps
      ∙ ap (λ xs. xs ++ ps) (map-append _ log.entries _)
      ∙ append_assoc _ (p ∷ []) ps

  -- A snapshot of a rebuilt log gives the payloads back.
  pub snapshot-rebuild : (ps : List Bytes) → snapshot_payloads (rebuild_from_payloads h ps) ≡ ps
  unfolding rebuild_from_payloads snapshot_payloads
  snapshot-rebuild ps = snapshot-append_all new ps

  pub root_hash-append :
      (log : EventLog) (p : Bytes)
      → root_hash (append h log p).0 ≡ (entry h (root_hash log) (len log) p).hash
  unfolding root_hash append
  root_hash-append log p = last_hash-append genesis log.entries _

  pub len-append : (log : EventLog) (p : Bytes) → len (append h log p).0 ≡ len log + 1
  unfolding len append
  len-append log p =
      omega (arith, length-append log.entries (entry h (root_hash log) (len log) p ∷ []))

  -- The entries that a chain from `prev` has at sequence numbers from `n` on.
  unfoldable pub entries_of : Bytes → ℕ → List Bytes → List Entry
  unfolding entry
  entries_of prev n [] = []
  entries_of prev n (p ∷ ps) = entry h prev n p ∷ entries_of (entry h prev n p).hash (n + 1) ps

  pub append_all-entries :
      (log : EventLog) (ps : List Bytes)
      → (append_all h log ps).entries ≡ log.entries ++ entries_of (root_hash log) (len log) ps
  unfolding append_all entries_of
  append_all-entries log [] = sym (append-nil _)
  append_all-entries log (p ∷ ps) =
      append_all-entries (append h log p).0 ps
      ∙ rw (root_hash-append log p, len-append log p)
          (append_assoc log.entries (entry h (root_hash log) (len log) p ∷ []) _)

  -- Intact, with the sequence numbers that appending gives.
  abbrev pub IsFrom : Bytes → ℕ → List Entry → Type 0
  IsFrom prev n [] = Unit {0}
  IsFrom prev n (e ∷ es) =
      (e.seq ≡ n) × (h (chain_input prev e.seq e.payload) ≡ e.hash) × IsFrom e.hash (n + 1) es

  abbrev pub IsChained : EventLog → Type 0
  IsChained log = IsFrom genesis 0 log.entries

  entries_of-IsFrom :
      (prev : Bytes) (n : ℕ) (ps : List Bytes) → IsFrom prev n (entries_of prev n ps)
  unfolding entries_of
  entries_of-IsFrom prev n [] = tt
  entries_of-IsFrom prev n (p ∷ ps) =
      (refl, refl, entries_of-IsFrom (entry h prev n p).hash (n + 1) ps)

  entries_of-payloads :
      (prev : Bytes) (n : ℕ) (es : List Entry)
      → IsFrom prev n es
      → entries_of prev n (map (λ e. e.payload) es) ≡ es
  unfolding entries_of
  entries_of-payloads prev n [] w = refl
  entries_of-payloads prev n (e ∷ es) (s, k, w) =
      let hash : (entry h prev n e.payload).hash ≡ e.hash =
        unfold entry in ap (λ m. h (chain_input prev m e.payload)) (sym s) ∙ k in
      let rest =
        ap (λ p. entries_of p (n + 1) (map (λ e. e.payload) es)) hash
        ∙ entries_of-payloads e.hash (n + 1) es w in
      let seq_back = sym s in
      λ i. record { seq = seq_back i; payload = e.payload; hash = hash i } ∷ rest i

  pub rebuild-entries :
      (ps : List Bytes) → (rebuild_from_payloads h ps).entries ≡ entries_of genesis 0 ps
  unfolding rebuild_from_payloads root_hash len
  rebuild-entries ps = append_all-entries new ps

  pub rebuild-IsChained : (ps : List Bytes) → IsChained (rebuild_from_payloads h ps)
  rebuild-IsChained ps = rw (rebuild-entries ps) (entries_of-IsFrom genesis 0 ps)

  -- A log that chains from the genesis hash, numbered from 0, is recovered entry for entry from
  -- the snapshot of its payloads.
  pub rebuild-snapshot :
      (log : EventLog) → IsChained log → rebuild_from_payloads h (snapshot_payloads log) ≡ log
  unfolding snapshot_payloads
  rebuild-snapshot log w =
      let es =
        rebuild-entries (map (λ e. e.payload) log.entries)
        ∙ entries_of-payloads genesis 0 log.entries w in
      λ i. record { entries = es i }

  -- What the types fix: numbers of 64 bits and hashes of 32 bytes.
  abbrev pub IsSizedEntry : Entry → Type 0
  IsSizedEntry e = IsU64 e.seq × (length e.hash ≡ 32)

  chain_input-injective :
      (p q : Bytes) (m n : ℕ) (a b : Bytes)
      → length p ≡ length q
      → IsU64 m
      → IsU64 n
      → chain_input p m a ≡ chain_input q n b
      → (p ≡ q) × (m ≡ n) × (a ≡ b)
  unfolding chain_input
  chain_input-injective p q m n a b l hm hn e =
      let (prevs, e₁) = append-injective p q _ _ l e in
      let (seqs, payloads) =
        append-injective (be_bytes 8 m) (be_bytes 8 n) a b
          (length-be_bytes 8 m ∙ sym (length-be_bytes 8 n)) e₁ in
      (prevs, be_bytes-injective 8 m n hm hn seqs, payloads)

  Intact : Bytes → List Entry → Type 0
  Intact p es = verify_from h p es ≡ ok tt

  Intact-cons :
      (p : Bytes) (e : Entry) (es : List Entry)
      → Intact p (e ∷ es)
      → (h (chain_input p e.seq e.payload) ≡ e.hash) × Intact e.hash es
  unfolding Intact verify_from
  Intact-cons p e es w = elim (Bool-cases (h (chain_input p e.seq e.payload) ≟ e.hash)) [
    | inl t ↦ (eq_of_≟ _ _ t, rw (t, if◌then◌else◌) at w)
    | inr f ↦ cc (rw (f, if◌then◌else◌) at w)
  ]

  same_tip :
      (p q : Bytes) (es fs : List Entry)
      → length p ≡ length q
      → length es ≡ length fs
      → All IsSizedEntry es
      → All IsSizedEntry fs
      → Intact p es
      → Intact q fs
      → last_hash p es ≡ last_hash q fs
      → ((p ≡ q) × (es ≡ fs)) ⊎ Collision h
  unfolding last_hash
  same_tip p q [] [] l n se sf we wf t = inl (t, refl)
  same_tip p q [] (f ∷ fs) l n se sf we wf t = absurd (omega arith)
  same_tip p q (e ∷ es) [] l n se sf we wf t = absurd (omega arith)
  same_tip p q (e ∷ es) (f ∷ fs) l n se sf we wf t =
      let (he, we') = Intact-cons p e es we in
      let (hf, wf') = Intact-cons q f fs wf in
      elim (same_tip e.hash f.hash es fs (se.0.1 ∙ sym sf.0.1) (omega arith) se.1 sf.1 we' wf' t) [
        | inr collision ↦ inr collision
        | inl (hashes, rest) ↦
            elim (Bool-cases (chain_input p e.seq e.payload ≟ chain_input q f.seq f.payload)) [
              | inl same ↦
                  let (ps, seqs, payloads) =
                    chain_input-injective p q e.seq f.seq e.payload f.payload l se.0.0 sf.0.0
                      (eq_of_≟ _ _ same) in
                  inl (
                    ps,
                    λ i. record { seq = seqs i; payload = payloads i; hash = hashes i } ∷ rest i,
                  )
              | inr apart ↦ inr (record {
                left = chain_input p e.seq e.payload;
                right = chain_input q f.seq f.payload;
                differ = ne_of_≟ _ _ apart;
                same_hash = he ∙ hashes ∙ sym hf;
              })
            ]
      ]

  -- Two logs of one length, with 64-bit sequence numbers and 32-byte hashes, that pass
  -- verification and end in one root hash are equal, or else they exhibit two different texts
  -- with the same hash.
  pub root_hash-pins :
      (a b : EventLog)
      → length a.entries ≡ length b.entries
      → All IsSizedEntry a.entries
      → All IsSizedEntry b.entries
      → verify h a ≡ ok tt
      → verify h b ≡ ok tt
      → root_hash a ≡ root_hash b
      → (a ≡ b) ⊎ Collision h
  unfolding verify root_hash Intact
  root_hash-pins a b n sa sb wa wb t =
      elim (same_tip genesis genesis a.entries b.entries refl n sa sb wa wb t) [
        | inl (_, es) ↦ inl (λ i. record { entries = es i })
        | inr collision ↦ inr collision
      ]

-- ===== src/Node/Dod/Once.antt =====
-- That the gate of bebop2/mesh-node/src/dod.rs lets every event through at most once.
use open_bebop.Prelude.{
  ℕ, ◌<◌, ◌≡◌, refl, ap, sym, ◌∙◌, ◌↔◌, ◌⊎◌, inl, inr, true, false, not, ◌&&◌, ◌||◌, ◌==◌, ==_iff,
  leb, if◌then◌else◌, List, [], ◌∷◌, length, contains, insert, Elem, Elem→contains, Distinct, ◌≟◌,
  eq_of_≟, nat_eq, ≟-refl, Result, ok, is_ok, Bool-cases, arith, ||_false,
}
use open_bebop.Prelude.Sets.{Elem→false}
use open_bebop.Node.Dod.{Event, DodFault, DodGate, admit}

-- An event as it comes in: the clock at that time, and its deadline.
pub record Arrival : Type 0 where
  pub event : Event
  pub now : ℕ
  pub expires_at : ℕ

-- It has a body and an id, and has no deadline or is in time.
abbrev pub IsClean : Arrival → Type 0
IsClean a =
    (0 < length a.event.payload) × (0 < a.event.id) × ((a.expires_at ≡ 0) ⊎ (a.now < a.expires_at))

abbrev pub Presented : ℕ → List Arrival → Type 0
Presented id [] = ⊥
Presented id (a ∷ rest) = ((a.event.id ≡ id) × IsClean a) ⊎ Presented id rest

abbrev pub take_in : Arrival → DodGate → Result DodFault (Unit {0}) × DodGate
take_in a g = admit a.event a.now a.expires_at g

-- The ids that the gate lets through, in order.
unfoldable pub let_through : List Arrival → DodGate → List ℕ
let_through [] g = []
let_through (a ∷ rest) g =
    let later = let_through rest (take_in a g).1 in
    if is_ok (take_in a g).0 then a.event.id ∷ later else later

IsNew : Arrival → DodGate → Type 0
IsNew a g =
    IsClean a
    × (contains g.applied a.event.id ≡ false)
    × (take_in a g ≡ (ok tt, record { applied = a.event.id ∷ g.applied }))

IsRefused : Arrival → DodGate → Type 0
IsRefused a g =
    (is_ok (take_in a g).0 ≡ false)
    × ((take_in a g).1 ≡ g)
    × ((contains g.applied a.event.id ≡ true) ⊎ (IsClean a → ⊥))

clean_in_time :
    (now expires_at : ℕ)
    → (not (expires_at == 0) && leb expires_at now) ≡ false
    → (expires_at ≡ 0) ⊎ (now < expires_at)
clean_in_time now expires_at h = elim (Bool-cases (expires_at == 0)) [
  | inl t ↦ inl ((==_iff expires_at 0).0 t)
  | inr f ↦ inr (ground arith)
]

take_in-cases : (a : Arrival) (g : DodGate) → IsNew a g ⊎ IsRefused a g
unfolding admit insert IsNew IsRefused
take_in-cases a g = elim (Bool-cases (length a.event.payload == 0)) [
  | inl t ↦ inr (rw t (refl, refl, inr (λ (c, _, _). ground arith)))
  | inr body ↦ elim (Bool-cases (a.event.id == 0)) [
    | inl t ↦ inr (rw (body, t) (refl, refl, inr (λ (_, c, _). ground arith)))
    | inr id ↦ elim (Bool-cases (contains g.applied a.event.id)) [
      | inl t ↦ inr (rw (body, id, t) (refl, refl, inl refl))
      | inr fresh ↦ elim (Bool-cases (not (a.expires_at == 0) && leb a.expires_at a.now)) [
        | inl t ↦ inr (rw (body, id, fresh, t) (refl, refl, inr (λ (_, _, c). ground arith)))
        | inr f ↦ inl (
            rw (body, id, fresh, f)
              ((ground arith, ground arith, clean_in_time a.now a.expires_at f), refl, refl))
      ]
    ]
  ]
]

-- Whatever events arrive, and in whatever order: the gate lets no id through twice, and lets
-- through exactly the ids that it had not applied before and that arrive at least once with a
-- body, not as the placeholder zero, and in time.
pub let_through-once :
    (arrivals : List Arrival) (g : DodGate) (id : ℕ)
    → Distinct (let_through arrivals g)
      × (Elem id (let_through arrivals g)
          ↔ ((contains g.applied id ≡ false) × Presented id arrivals))
unfolding let_through contains IsNew IsRefused
let_through-once [] g id = (tt, (λ m. absurd m, λ (absent, p). absurd p))
let_through-once (a ∷ rest) g id = elim (take_in-cases a g) [
  | inl (clean, fresh, step) ↦
      let next : DodGate = record { applied = a.event.id ∷ g.applied } in
      let (apart, later) = let_through-once rest next id in
      let mine = (let_through-once rest next a.event.id).1 in
      rw step (
        (
          Elem→false a.event.id (let_through rest next) (λ m.
              let (never, p) = mine.0 m in
              cc (never, Elem→contains next.applied a.event.id (inl refl))),
          apart,
        ),
        (
          λ m. elim m [
            | inl e ↦ (ap (contains g.applied) e ∙ fresh, inl (sym e, clean))
            | inr n ↦
                let (absent, p) = later.0 n in
                ((||_false (id ≟ a.event.id) (contains g.applied id) absent).1, inr p)
          ],
          λ (absent, p). elim (Bool-cases (id ≟ a.event.id)) [
            | inl t ↦ inl (eq_of_≟ id a.event.id t)
            | inr f ↦ elim p [
              | inl (e, c) ↦ cc (sym e, f, ≟-refl id)
              | inr p ↦ inr (later.1 (ap (λ b. b || contains g.applied id) f ∙ absent, p))
            ]
          ],
        ),
      )
  | inr (refused, kept, why) ↦
      let (apart, later) = let_through-once rest g id in
      rw (refused, kept)
        (
          apart,
          (
            λ m. let (absent, p) = later.0 m in (absent, inr p),
            λ (absent, p). elim p [
              | inl (e, clean) ↦
                  absurd (elim why [ inl old ↦ cc (old, e, absent) | inr unclean ↦ unclean clean ])
              | inr p ↦ later.1 (absent, p)
            ],
          ),
        )
]

-- ===== src/Node/Listeners/Laws.antt =====
-- That the actions of bebop2/mesh-node/src/listener_reconcile.rs lead from one set to the other.
use open_bebop.Prelude.{
  ◌≡◌, ap, ◌↔◌, ◌⊎◌, inl, inr, not, List, [], ◌∷◌, map, contains, insert, contains→Elem,
  Elem→contains, Elem, Elem-retain_to, Elem-retain_from, Bool-cases,
}
use open_bebop.Prelude.Bytes.{Bytes, bytes_eq}
use open_bebop.Prelude.ByteOrder.{bytes_le}
use open_bebop.Prelude.Ranking.{Elem-sort_to, Elem-sort_from}
use open_bebop.Prelude.Sets.{Elem-append_to, Elem-append_left, Elem-append_right, Elem→false}
use open_bebop.Node.Listeners.{open_bind, close_bind, members, collect, difference, reconcile}

insert_iff : (a b : Bytes) (set : List Bytes) → Elem a (insert b set) ↔ ((a ≡ b) ⊎ Elem a set)
unfolding insert
insert_iff a b set = elim (Bool-cases (contains set b)) [
  | inl t ↦ rw t (λ m. inr m, λ m. elim m [ inl e ↦ rw e (contains→Elem set b t) | inr n ↦ n ])
  | inr f ↦ rw f (λ m. m, λ m. m)
]

members_iff : (a : Bytes) (bs : List Bytes) → Elem a (members bs) ↔ Elem a bs
unfolding members
members_iff a [] = (λ m. m, λ m. m)
members_iff a (b ∷ bs) = (
  λ m. elim ((insert_iff a b (members bs)).0 m) [
    | inl e ↦ inl e
    | inr n ↦ inr ((members_iff a bs).0 n)
  ],
  λ m.
      (insert_iff a b (members bs)).1
        (elim m [ inl e ↦ inl e | inr n ↦ inr ((members_iff a bs).1 n) ]),
)

collect_iff : (a : Bytes) (bs : List Bytes) → Elem a (collect bs) ↔ Elem a bs
unfolding collect
collect_iff a bs = (
  λ m. (members_iff a bs).0 (Elem-sort_to bytes_le a (members bs) m),
  λ m. Elem-sort_from bytes_le a (members bs) ((members_iff a bs).1 m),
)

difference_iff :
    (a : Bytes) (xs ys : List Bytes)
    → Elem a (difference (collect xs) (collect ys)) ↔ (Elem a xs × (Elem a ys → ⊥))
unfolding difference
difference_iff a xs ys = (
  λ m.
      let (here, absent) = Elem-retain_to (λ b. not (contains (collect ys) b)) a (collect xs) m in
      (
        (collect_iff a xs).0 here,
        λ there. cc (absent, ap not (Elem→contains (collect ys) a ((collect_iff a ys).1 there))),
      ),
  λ (here, absent).
      Elem-retain_from (λ b. not (contains (collect ys) b)) a (collect xs)
        ((collect_iff a xs).1 here)
        (ap not (Elem→false a (collect ys) (λ m. absent ((collect_iff a ys).0 m)))),
)

Elem-map_open : (a : Bytes) (xs : List Bytes) → Elem (open_bind a) (map open_bind xs) ↔ Elem a xs
Elem-map_open a [] = (λ m. m, λ m. m)
Elem-map_open a (x ∷ xs) = (
  λ m. elim m [ inl e ↦ inl (cc e) | inr n ↦ inr ((Elem-map_open a xs).0 n) ],
  λ m. elim m [ inl e ↦ inl (ap open_bind e) | inr n ↦ inr ((Elem-map_open a xs).1 n) ],
)

Elem-map_close : (a : Bytes) (xs : List Bytes) → Elem (close_bind a) (map close_bind xs) ↔ Elem a xs
Elem-map_close a [] = (λ m. m, λ m. m)
Elem-map_close a (x ∷ xs) = (
  λ m. elim m [ inl e ↦ inl (cc e) | inr n ↦ inr ((Elem-map_close a xs).0 n) ],
  λ m. elim m [ inl e ↦ inl (ap close_bind e) | inr n ↦ inr ((Elem-map_close a xs).1 n) ],
)

no_open : (a : Bytes) (xs : List Bytes) → Elem (open_bind a) (map close_bind xs) → ⊥
no_open a [] m = m
no_open a (x ∷ xs) (inl e) = cc e
no_open a (x ∷ xs) (inr n) = no_open a xs n

no_close : (a : Bytes) (xs : List Bytes) → Elem (close_bind a) (map open_bind xs) → ⊥
no_close a [] m = m
no_close a (x ∷ xs) (inl e) = cc e
no_close a (x ∷ xs) (inr n) = no_close a xs n

-- A listener is opened exactly when it is desired and not there, and closed exactly when it is
-- there and not desired; one that is both is left alone.
pub reconcile_listeners_iff :
    (actual desired : List Bytes) (bind : Bytes)
    → (Elem (open_bind bind) (reconcile actual desired)
        ↔ (Elem bind desired × (Elem bind actual → ⊥)))
      × (Elem (close_bind bind) (reconcile actual desired)
          ↔ (Elem bind actual × (Elem bind desired → ⊥)))
unfolding reconcile
reconcile_listeners_iff actual desired bind =
    let opens = difference (collect desired) (collect actual) in
    let closes = difference (collect actual) (collect desired) in
    (
      (
        λ m.
            elim (Elem-append_to (open_bind bind) (map open_bind opens) (map close_bind closes) m) [
              | inl n ↦ (difference_iff bind desired actual).0 ((Elem-map_open bind opens).0 n)
              | inr n ↦ absurd (no_open bind closes n)
            ],
        λ h.
            Elem-append_left (open_bind bind) (map open_bind opens) (map close_bind closes)
              ((Elem-map_open bind opens).1 ((difference_iff bind desired actual).1 h)),
      ),
      (
        λ m.
            elim (Elem-append_to (close_bind bind) (map open_bind opens) (map close_bind closes)
              m) [
                | inl n ↦ absurd (no_close bind opens n)
                | inr n ↦ (difference_iff bind actual desired).0 ((Elem-map_close bind closes).0 n)
              ],
        λ h.
            Elem-append_right (close_bind bind) (map open_bind opens) (map close_bind closes)
              ((Elem-map_close bind closes).1 ((difference_iff bind actual desired).1 h)),
      ),
    )

-- ===== src/Node/Listeners.antt =====
-- bebop2/mesh-node/src/listener_reconcile.rs: which listeners to open and which to close. A bind
-- address is its bytes; a `BTreeSet` is the sorted list of its members.
pub mod Laws
use open_bebop.Prelude.{Bool, not, List, [], ◌∷◌, ◌++◌, map, retain, contains, insert}
use open_bebop.Prelude.Bytes.{Bytes, bytes_eq}
use open_bebop.Prelude.Sort.{sort}
use open_bebop.Prelude.ByteOrder.{bytes_le}

pub data ListenerAction : Type 0 where
  open_bind : Bytes → ListenerAction
  close_bind : Bytes → ListenerAction

unfoldable pub members : List Bytes → List Bytes
unfolding insert
members [] = []
members (b ∷ bs) = insert b (members bs)

-- `iter().collect::<BTreeSet<_>>()`
unfoldable pub collect : List Bytes → List Bytes
unfolding members
collect bs = sort bytes_le (members bs)

-- `a.difference(&b)`, in order.
unfoldable pub difference : List Bytes → List Bytes → List Bytes
difference a b = retain (λ bind. not (contains b bind)) a

unfoldable pub reconcile : List Bytes → List Bytes → List ListenerAction
unfolding collect difference
reconcile actual desired =
    map open_bind (difference (collect desired) (collect actual))
    ++ map close_bind (difference (collect actual) (collect desired))

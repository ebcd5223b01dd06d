-- ===== src/ProtoCap/Matcher/Laws.antt =====
-- The ranking of bebop2/proto-cap/src/matcher.rs.
use mathlib.Core.List.{Perm}
use open_bebop.Prelude.{ℕ, ◌≡◌, ap, sym, ◌∙◌, min, Bool, List, map, length, take}
use open_bebop.Prelude.Bytes.{Bytes}
use open_bebop.Prelude.Sort.{sort}
use open_bebop.Prelude.Ranking.{IsTotalOrder, sort-eq_of_perm, sort-map, by_key}
use open_bebop.Prelude.ByteOrder.{bytes_le, bytes_le-IsTotalOrder, heavier-IsTotalOrder}
use open_bebop.ProtoCap.Matcher.{Courier, hrw_weight, ranks_before, weigh, assign}

couriers_set : IsSet (List Courier)
couriers_set = hlevel

abbrev key_le : Courier → Courier → Bool
key_le a b = bytes_le a.pubkey b.pubkey

key_le-IsTotalOrder : IsTotalOrder key_le
key_le-IsTotalOrder =
    let o = bytes_le-IsTotalOrder in
    record {
      total = λ a b h. o.total a.pubkey b.pubkey h;
      trans = λ a b c h k. o.trans a.pubkey b.pubkey c.pubkey h k;
      antisymm = λ a b h k i. record { pubkey = o.antisymm a.pubkey b.pubkey h k i };
    }

module _ (order_id : ℕ) where
  abbrev weighed : Courier → ℕ × Bytes
  weighed c = (hrw_weight order_id c.pubkey, c.pubkey)

  same_ranking :
      (cs ds : List Courier)
      → Perm cs ds
      → sort ranks_before (weigh order_id cs) ≡ sort ranks_before (weigh order_id ds)
  unfolding weigh
  same_ranking cs ds p =
      sort-map ranks_before weighed cs
      ∙ ap (map weighed) (
          sort-eq_of_perm (by_key ranks_before weighed)
            (heavier-IsTotalOrder (λ c. hrw_weight order_id c.pubkey) key_le key_le-IsTotalOrder)
            couriers_set p)
      ∙ sym (sort-map ranks_before weighed ds)

  -- Every node that knows the same candidates, in whatever order, ranks them alike for an order.
  pub assign-candidates_perm :
      (cs ds : List Courier) (max : ℕ)
      → Perm cs ds
      → assign order_id cs max ≡ assign order_id ds max
  unfolding assign
  assign-candidates_perm cs ds max p =
      ap (λ ranked. map (λ (q : ℕ × Bytes). q.1) (take (min max (length ranked)) ranked))
        (same_ranking cs ds p)

-- ===== src/Node/Tests.antt =====
-- bebop2/mesh-node/src/kill_switch.rs on authentic orders.
use open_bebop.Prelude.{◌≡◌, ◌↔◌, refl, [], ◌∷◌, take, ok, err, ◌≟◌, Result, contains, insert}
use open_bebop.Prelude.Bytes.{Bytes, bytes_eq, bytes_beq, le_bytes}
use open_bebop.Crypto.{Crypto}
use open_bebop.Node.KillSwitch.{
  KillOrder, KillSequence, SnapshotReceipt, new, sign, handle, verify, replay, after_verify,
  record_id, signing_domain, replay_id, is_empty,
}
use open_bebop.Node.KillSwitch.Laws.{IsAuthentic, handle_iff, handle-once}

-- A signature is good when it starts as the key does.
abbrev toy : Crypto
toy = record {
  sha3 = λ text. text;
  ed_sign = λ seed text. seed;
  ed_verify = λ key text sig. take 1 sig ≟ take 1 key;
  pq_sign = λ key text random. key;
  pq_verify = λ key text sig. sig ≟ key;
}

abbrev order : KillOrder
order = sign toy (5 ∷ []) (1 ∷ []) (104 ∷ 105 ∷ []) (5 ∷ [])

abbrev hub : KillSequence
hub = new (record { keys = (4 ∷ []) ∷ (5 ∷ []) ∷ [] })

abbrev receipt : SnapshotReceipt
receipt = record { snapshot_sha3 = 9 ∷ [] }

authentic : IsAuthentic toy order hub
unfolding sign new contains bytes_beq
authentic = record { enrolled = refl; signed = refl; unseen = refl }

abbrev answer : Result Bytes SnapshotReceipt
answer = ok receipt

handle_iff_example :
    ((handle toy order answer hub).0 ≡ ok receipt)
    ↔ (IsAuthentic toy order hub × (answer ≡ ok receipt))
handle_iff_example = handle_iff toy order answer hub receipt

-- The same anchor and nonce under another reason: the ledger does not know it.
abbrev reworded : KillOrder
reworded = sign toy (5 ∷ []) (1 ∷ []) (104 ∷ []) (5 ∷ [])

nonce_reused :
    ((handle toy order answer hub).0 ≡ ok receipt)
    × ((handle toy reworded answer (handle toy order answer hub).1).0 ≡ ok receipt)
unfolding handle verify after_verify record_id insert contains sign signing_domain replay_id new
    is_empty le_bytes bytes_beq
nonce_reused = (refl, refl)

handle-once_example : verify toy order (handle toy order (err []) hub).1 ≡ err replay
handle-once_example = handle-once toy order (err []) hub authentic

-- ===== src/Node/HubPolicy.antt =====
-- bebop2/mesh-node/src/hub_policy.rs: the live policy and the floor-gate that a revision passes.
-- A `String` is its bytes. Reading the policy's file is not modelled.
pub mod Floor
pub mod Interleaving
use open_bebop.Prelude.{
  ℕ, zero, suc, ◌+◌, ◌/◌, ◌%◌, ◌^◌, Bool, true, false, not, Option, none, some, List, [], ◌∷◌, ◌++◌,
  map, retain, replicate, ltb, if◌then◌else◌, contains,
}
use open_bebop.Prelude.Bytes.{Bytes, bytes_eq}
use open_bebop.ProtoCap.HybridGate.{HybridPolicy, require_both, classical_until_pq_audit}

pub record ListenerSpec : Type 0 where
  pub bind : Bytes
  pub enabled : Bool

pub record BridgeSpec : Type 0 where
  pub bridge_id : Bytes
  pub endpoint : Bytes
  pub hybrid : HybridPolicy

pub record ModelEndpoint : Type 0 where
  pub url : Bytes
  pub sha3_hex : Bytes

pub record RateLimitConfig : Type 0 where
  pub new_listener_capacity : ℕ
  pub new_listener_refill_per_sec : ℕ
  pub accept_capacity : ℕ
  pub accept_refill_per_sec : ℕ

abbrev pub default_rate_limits : RateLimitConfig
default_rate_limits = record {
  new_listener_capacity = 4;
  new_listener_refill_per_sec = 1;
  accept_capacity = 32;
  accept_refill_per_sec = 8;
}

-- `red_line_allow` is `red_line_policy.allow`.
pub record HubPolicy : Type 0 where
  pub revision : ℕ
  pub policy_sha3 : Bytes
  pub listeners : List ListenerSpec
  pub bridges : List BridgeSpec
  pub model_endpoints : List ModelEndpoint
  pub red_line_allow : List Bytes
  pub rate_limits : RateLimitConfig

-- "listener "
abbrev listener_kw : Bytes
listener_kw = 108 ∷ 105 ∷ 115 ∷ 116 ∷ 101 ∷ 110 ∷ 101 ∷ 114 ∷ 32 ∷ []

-- "bridge "
abbrev bridge_kw : Bytes
bridge_kw = 98 ∷ 114 ∷ 105 ∷ 100 ∷ 103 ∷ 101 ∷ 32 ∷ []

-- "model "
abbrev model_kw : Bytes
model_kw = 109 ∷ 111 ∷ 100 ∷ 101 ∷ 108 ∷ 32 ∷ []

-- "redline_allow "
abbrev redline_kw : Bytes
redline_kw = 114 ∷ 101 ∷ 100 ∷ 108 ∷ 105 ∷ 110 ∷ 101 ∷ 95 ∷ 97 ∷ 108 ∷ 108 ∷ 111 ∷ 119 ∷ 32 ∷ []

-- "rate_limits "
abbrev rate_kw : Bytes
rate_kw = 114 ∷ 97 ∷ 116 ∷ 101 ∷ 95 ∷ 108 ∷ 105 ∷ 109 ∷ 105 ∷ 116 ∷ 115 ∷ 32 ∷ []

-- "true"
abbrev true_text : Bytes
true_text = 116 ∷ 114 ∷ 117 ∷ 101 ∷ []

-- "false"
abbrev false_text : Bytes
false_text = 102 ∷ 97 ∷ 108 ∷ 115 ∷ 101 ∷ []

-- "require_both"
abbrev require_both_text : Bytes
require_both_text = 114 ∷ 101 ∷ 113 ∷ 117 ∷ 105 ∷ 114 ∷ 101 ∷ 95 ∷ 98 ∷ 111 ∷ 116 ∷ 104 ∷ []

-- "classical_until_pq_audit"
abbrev classical_text : Bytes
classical_text =
    99 ∷ 108 ∷ 97 ∷ 115 ∷ 115 ∷ 105 ∷ 99 ∷ 97 ∷ 108 ∷ 95 ∷ 117 ∷ 110 ∷ 116 ∷ 105 ∷ 108 ∷ 95 ∷ 112
    ∷ 113 ∷ 95 ∷ 97 ∷ 117 ∷ 100 ∷ 105 ∷ 116 ∷ []

-- A `u32` in decimal has at most 10 digits.
unfoldable pub digits : ℕ → ℕ → Bytes
digits zero n = []
digits (suc fuel) n =
    let front = digits fuel (n / 10) in
    if ltb n 10 then (48 + n) ∷ [] else front ++ ((48 + n % 10) ∷ [])

abbrev pub decimal : ℕ → Bytes
decimal n = digits 10 n

unfoldable pub bool_text : Bool → Bytes
bool_text true = true_text
bool_text false = false_text

unfoldable pub hybrid_text : HybridPolicy → Bytes
hybrid_text require_both = require_both_text
hybrid_text classical_until_pq_audit = classical_text

unfoldable pub listener_lines : List ListenerSpec → Bytes
unfolding bool_text
listener_lines [] = []
listener_lines (l ∷ ls) =
    listener_kw ++ (l.bind ++ (32 ∷ (bool_text l.enabled ++ (10 ∷ listener_lines ls))))

unfoldable pub bridge_lines : List BridgeSpec → Bytes
unfolding hybrid_text
bridge_lines [] = []
bridge_lines (b ∷ bs) =
    bridge_kw
    ++ (b.bridge_id
        ++ (32 ∷ (b.endpoint ++ (32 ∷ (hybrid_text b.hybrid ++ (10 ∷ bridge_lines bs))))))

unfoldable pub model_lines : List ModelEndpoint → Bytes
model_lines [] = []
model_lines (m ∷ ms) = model_kw ++ (m.url ++ (32 ∷ (m.sha3_hex ++ (10 ∷ model_lines ms))))

unfoldable pub allow_lines : List Bytes → Bytes
allow_lines [] = []
allow_lines (a ∷ as_) = redline_kw ++ (a ++ (10 ∷ allow_lines as_))

unfoldable pub rate_line : RateLimitConfig → Bytes
unfolding digits
rate_line r =
    rate_kw
    ++ (decimal r.new_listener_capacity
        ++ (32
            ∷ (decimal r.new_listener_refill_per_sec
                ++ (32
                    ∷ (decimal r.accept_capacity
                        ++ (32 ∷ (decimal r.accept_refill_per_sec ++ (10 ∷ []))))))))

unfoldable pub canonical_string : HubPolicy → Bytes
unfolding listener_lines bridge_lines model_lines allow_lines rate_line
canonical_string p =
    listener_lines p.listeners
    ++ (bridge_lines p.bridges
        ++ (model_lines p.model_endpoints
            ++ (allow_lines p.red_line_allow ++ rate_line p.rate_limits)))

unfoldable pub is_classical : HybridPolicy → Bool
is_classical require_both = false
is_classical classical_until_pq_audit = true

unfoldable pub insecure_bridges : HubPolicy → List BridgeSpec
unfolding is_classical
insecure_bridges p = retain (λ (b : BridgeSpec). is_classical b.hybrid) p.bridges

unfoldable pub enabled_listener_binds : HubPolicy → List Bytes
enabled_listener_binds p =
    map (λ (l : ListenerSpec). l.bind) (retain (λ (l : ListenerSpec). l.enabled) p.listeners)

-- `Applied` with the revision and its hash, `Rejected` with the category that its message names.
pub data ApplyOutcome : Type 0 where
  applied : ℕ → Bytes → ApplyOutcome
  rejected : Bytes → ApplyOutcome

-- The loop over the candidate's entries: the first that is not live.
unfoldable pub first_widening : List Bytes → List Bytes → Option Bytes
unfolding contains
first_widening live [] = none
first_widening live (cat ∷ cats) =
    let rest = first_widening live cats in if not (contains live cat) then some cat else rest

module _ (h : Bytes → Bytes) where
  unfoldable pub canonical_hash : HubPolicy → Bytes
  unfolding canonical_string
  canonical_hash p = h (canonical_string p)

  unfoldable pub deny_all_default : HubPolicy
  unfolding canonical_hash
  deny_all_default =
      let p : HubPolicy = record {
        revision = 0;
        policy_sha3 = replicate 32 0;
        listeners = [];
        bridges = [];
        model_endpoints = [];
        red_line_allow = [];
        rate_limits = default_rate_limits;
      } in
      record p { policy_sha3 = canonical_hash p }

  -- The candidate with its revision and hash, after the policy that was read. The `u64` sum wraps,
  -- as it does in a release build.
  unfoldable pub stamp : HubPolicy → HubPolicy → HubPolicy
  unfolding canonical_hash
  stamp current candidate = record candidate {
    revision = (current.revision + 1) % 2 ^ 64;
    policy_sha3 = canonical_hash candidate;
  }

  -- `apply_revision` where no other thread runs: the live policy after it, and the outcome.
  unfoldable pub apply_revision : HubPolicy → HubPolicy → HubPolicy × ApplyOutcome
  unfolding first_widening stamp
  apply_revision candidate live =
      elim (first_widening live.red_line_allow candidate.red_line_allow) [
        | some cat ↦ (live, rejected cat)
        | none ↦ (
          stamp live candidate,
          applied (stamp live candidate).revision (stamp live candidate).policy_sha3,
        )
      ]

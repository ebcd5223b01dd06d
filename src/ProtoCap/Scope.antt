-- ===== src/ProtoCap/Scope.antt =====
-- bebop2/proto-cap/src/scope.rs: the closed vocabulary of resources and actions, its wire
-- discriminants, and scopes as lists of grants. `PartialEq` of the two enums is the derived one.
pub mod Laws
use open_bebop.Prelude.{
  ℕ, ◌%◌, ◌^◌, ◌≡◌, Bool, true, false, ◌&&◌, Option, none, some, List, [], ◌∷◌, ◌++◌, length, all,
  if◌then◌else◌, ◌==◌, Eq, ◌≟◌, contains, decide_eq, decide_eq_iff, pair_eq,
}
use open_bebop.Prelude.Bytes.{Bytes, le_bytes}

pub data Resource : Type 0 where
  route ledger delivery_intent presence menu order analytics customer corpus backup : Resource
  loyalty claim sync breach_alarm auth secret migration : Resource

pub data Action : Type 0 where
  send read append render create_order read_projection upload_conversion notify : Action
  sync_catalog export backup order_placed order_status_changed claim_offered : Action
  claim_accepted claim_released pickup delivery_confirmed settlement_recorded pull : Action
  broadcast authenticate deploy_secret run_migration : Action

unfoldable pub Resource-discrete : Discrete Resource
Resource-discrete = hlevel

unfoldable pub Action-discrete : Discrete Action
Action-discrete = hlevel

unfoldable pub resource_discriminant : Resource → ℕ
resource_discriminant route = 0x01
resource_discriminant ledger = 0x02
resource_discriminant delivery_intent = 0x03
resource_discriminant presence = 0x04
resource_discriminant menu = 0x05
resource_discriminant order = 0x06
resource_discriminant analytics = 0x07
resource_discriminant customer = 0x08
resource_discriminant corpus = 0x09
resource_discriminant Resource.backup = 0x0A
resource_discriminant loyalty = 0x0B
resource_discriminant claim = 0x0C
resource_discriminant sync = 0x0D
resource_discriminant breach_alarm = 0x0E
resource_discriminant auth = 0x0F
resource_discriminant secret = 0x10
resource_discriminant migration = 0x11

unfoldable pub resource_from_discriminant : ℕ → Option Resource
resource_from_discriminant b =
    if b == 0x01
    then some route
    else if b == 0x02
    then some ledger
    else if b == 0x03
    then some delivery_intent
    else if b == 0x04
    then some presence
    else if b == 0x05
    then some menu
    else if b == 0x06
    then some order
    else if b == 0x07
    then some analytics
    else if b == 0x08
    then some customer
    else if b == 0x09
    then some corpus
    else if b == 0x0A
    then some Resource.backup
    else if b == 0x0B
    then some loyalty
    else if b == 0x0C
    then some claim
    else if b == 0x0D
    then some sync
    else if b == 0x0E
    then some breach_alarm
    else if b == 0x0F
    then some auth
    else if b == 0x10
    then some secret
    else if b == 0x11
    then some migration
    else none

unfoldable pub action_discriminant : Action → ℕ
action_discriminant send = 0x01
action_discriminant read = 0x02
action_discriminant append = 0x03
action_discriminant render = 0x04
action_discriminant create_order = 0x05
action_discriminant read_projection = 0x06
action_discriminant upload_conversion = 0x07
action_discriminant notify = 0x08
action_discriminant sync_catalog = 0x09
action_discriminant export = 0x0A
action_discriminant Action.backup = 0x0B
action_discriminant order_placed = 0x0C
action_discriminant order_status_changed = 0x0D
action_discriminant claim_offered = 0x0E
action_discriminant claim_accepted = 0x0F
action_discriminant claim_released = 0x10
action_discriminant pickup = 0x11
action_discriminant delivery_confirmed = 0x12
action_discriminant settlement_recorded = 0x13
action_discriminant pull = 0x14
action_discriminant broadcast = 0x15
action_discriminant authenticate = 0x16
action_discriminant deploy_secret = 0x17
action_discriminant run_migration = 0x18

unfoldable pub action_from_discriminant : ℕ → Option Action
action_from_discriminant b =
    if b == 0x01
    then some send
    else if b == 0x02
    then some read
    else if b == 0x03
    then some append
    else if b == 0x04
    then some render
    else if b == 0x05
    then some create_order
    else if b == 0x06
    then some read_projection
    else if b == 0x07
    then some upload_conversion
    else if b == 0x08
    then some notify
    else if b == 0x09
    then some sync_catalog
    else if b == 0x0A
    then some export
    else if b == 0x0B
    then some Action.backup
    else if b == 0x0C
    then some order_placed
    else if b == 0x0D
    then some order_status_changed
    else if b == 0x0E
    then some claim_offered
    else if b == 0x0F
    then some claim_accepted
    else if b == 0x10
    then some claim_released
    else if b == 0x11
    then some pickup
    else if b == 0x12
    then some delivery_confirmed
    else if b == 0x13
    then some settlement_recorded
    else if b == 0x14
    then some pull
    else if b == 0x15
    then some broadcast
    else if b == 0x16
    then some authenticate
    else if b == 0x17
    then some deploy_secret
    else if b == 0x18
    then some run_migration
    else none

instance abbrev pub resource_eq : Eq Resource
resource_eq = record {
  beq = decide_eq Resource-discrete;
  beq_iff = decide_eq_iff Resource-discrete;
}

instance abbrev pub action_eq : Eq Action
action_eq = record { beq = decide_eq Action-discrete; beq_iff = decide_eq_iff Action-discrete }

abbrev pub Grant : Type 0
Grant = Resource × Action

pub record Scope : Type 0 where
  pub grants : List Grant

unfoldable pub new : List Grant → Scope
new grants = record { grants = grants }

unfoldable pub single : Resource → Action → Scope
single r a = record { grants = (r, a) ∷ [] }

-- The loop of `to_tlv_bytes`.
unfoldable pub grant_bytes : List Grant → Bytes
grant_bytes [] = []
grant_bytes ((r, a) ∷ gs) = resource_discriminant r ∷ action_discriminant a ∷ grant_bytes gs

-- The count is cast `as u16`, then written little-endian.
unfoldable pub to_tlv_bytes : Scope → Bytes
unfolding grant_bytes
to_tlv_bytes s = le_bytes 2 (length s.grants % 2 ^ 16) ++ grant_bytes s.grants

-- `self.grants.iter().all(|p| super_scope.grants.contains(p))`.
unfoldable pub grants_subset : List Grant → List Grant → Bool
grants_subset gs hs = all (contains hs) gs

unfoldable pub is_subset_of : Scope → Scope → Bool
unfolding grants_subset
is_subset_of s t = grants_subset s.grants t.grants

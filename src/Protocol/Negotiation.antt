-- ===== src/Protocol/Negotiation.antt =====
-- crates/oppa-protocol/src/negotiation.rs: version selection and the plan of the hello offers.
-- Times are u64 milliseconds.
pub mod Offers
use oppa.Common.{
  ℕ, ◌+◌, ◌*◌, ◌-◌, ◌^◌, Bool, true, false, not, ◌&&◌, ◌||◌, Option, none, some, List, [], ◌∷◌, ltb,
  min, any, find, is_some, if◌then◌else◌,
}

pub data ProtocolVersion : Type 0 where
  v1 v2 : ProtocolVersion

abbrev pub base : ProtocolVersion
base = v1

abbrev pub extended : ProtocolVersion
extended = v2

abbrev pub version_eq : ProtocolVersion → ProtocolVersion → Bool
version_eq v1 v1 = true
version_eq v2 v2 = true
version_eq _ _ = false

abbrev pub contains : List ProtocolVersion → ProtocolVersion → Bool
contains versions version = any (λ other. version_eq other version) versions

abbrev pub legacy_retry_interval_ms : ℕ
legacy_retry_interval_ms = 24 * 60 * 60 * 1000

abbrev pub u64_max : ℕ
u64_max = 2 ^ 64 - 1

unfoldable pub select_protocol_version :
    List ProtocolVersion → List ProtocolVersion → Option ProtocolVersion
select_protocol_version server_supported offered =
    find (λ version. contains server_supported version && contains offered version)
      (extended ∷ base ∷ [])

pub record LegacyServerRecord : Type 0 where
  pub legacy_until_ms : ℕ

pub data CacheUpdate : Type 0 where
  unchanged : CacheUpdate
  store : LegacyServerRecord → CacheUpdate
  clear : CacheUpdate

pub record HandshakePlanner : Type 0 where
  pub offered : List ProtocolVersion
  pub had_record : Bool
  pub may_fall_back : Bool
  pub fell_back : Bool

abbrev pub is_current : Option LegacyServerRecord → ℕ → Bool
is_current none now_ms = false
is_current (some r) now_ms = ltb now_ms r.legacy_until_ms

-- `HandshakePlanner::new`
unfoldable pub new : Option LegacyServerRecord → ℕ → HandshakePlanner
new stored now_ms =
    if is_current stored now_ms
    then record { offered = base ∷ []; had_record = true; may_fall_back = false; fell_back = false }
    else record {
      offered = extended ∷ base ∷ [];
      had_record = is_some stored;
      may_fall_back = true;
      fell_back = false;
    }

unfoldable pub on_closed_before_hello : HandshakePlanner → HandshakePlanner × Bool
on_closed_before_hello planner =
    if not planner.may_fall_back || planner.fell_back
    then (planner, false)
    else (record planner { offered = base ∷ []; fell_back = true }, true)

-- `saturating_add` of u64
abbrev pub saturating_add : ℕ → ℕ → ℕ
saturating_add a b = min (a + b) u64_max

unfoldable pub on_accepted : HandshakePlanner → ProtocolVersion → ℕ → CacheUpdate
on_accepted planner v1 now_ms =
    if planner.fell_back
    then store (record { legacy_until_ms = saturating_add now_ms legacy_retry_interval_ms })
    else unchanged
on_accepted planner v2 now_ms = if planner.had_record then clear else unchanged

-- The record that a host keeps after an update.
abbrev pub kept : Option LegacyServerRecord → CacheUpdate → Option LegacyServerRecord
kept stored unchanged = stored
kept stored (store r) = some r
kept stored clear = none

-- ===== src/Protocol/Negotiation/Offers.antt =====
-- The plan over any number of closed connections, and what it remembers.
use oppa.Common.{
  ℕ, zero, suc, ◌+◌, ◌≡◌, ◌≤◌, ◌⊎◌, refl, Bool, true, false, not, ◌&&◌, ◌||◌, Option, none, some,
  List, [], ◌∷◌, arith, ltb, is_some, inl, inr, if◌then◌else◌,
}
use oppa.Protocol.Negotiation.{
  ProtocolVersion, v1, v2, contains, legacy_retry_interval_ms, u64_max, select_protocol_version,
  LegacyServerRecord, HandshakePlanner, is_current, new, on_closed_before_hello, on_accepted, kept,
}

-- The selected version is held by both lists, and it is the extended one unless one list lacks that.
pub select_protocol_version_best :
    (server offered : List ProtocolVersion) (v : ProtocolVersion)
    → select_protocol_version server offered ≡ some v
    → (contains server v ≡ true)
      × (contains offered v ≡ true)
      × ((v ≡ v2) ⊎ ((contains server v2 && contains offered v2) ≡ false))
unfolding select_protocol_version
select_protocol_version_best server offered v1 h = (ground arith, ground arith, inr (ground arith))
select_protocol_version_best server offered v2 h = (ground arith, ground arith, inl refl)

-- When nothing is selected, no version is held by both lists.
pub select_protocol_version-none :
    (server offered : List ProtocolVersion) (v : ProtocolVersion)
    → select_protocol_version server offered ≡ none
    → (contains server v && contains offered v) ≡ false
unfolding select_protocol_version
select_protocol_version-none server offered v1 h = ground arith
select_protocol_version-none server offered v2 h = ground arith

-- The planner after `n` connections that closed before the server's hello, with the number of
-- immediate retries that it asked for.
pub close_times : ℕ → HandshakePlanner → HandshakePlanner × ℕ
close_times zero planner = (planner, 0)
close_times (suc n) planner =
    let (after, retry) = on_closed_before_hello planner in
    let (last, retries) = close_times n after in (last, (if retry then 1 else 0) + retries)

settled :
    (n : ℕ) (p : HandshakePlanner)
    → (not p.may_fall_back || p.fell_back) ≡ true
    → close_times n p ≡ (p, 0)
unfolding close_times on_closed_before_hello
settled zero p h = refl
settled (suc n) p h = ground (arith, settled n p h)

abbrev legacy_plan : HandshakePlanner
legacy_plan = record {
  offered = v1 ∷ [];
  had_record = true;
  may_fall_back = false;
  fell_back = false;
}

abbrev fallen_plan : Bool → HandshakePlanner
fallen_plan had = record {
  offered = v1 ∷ [];
  had_record = had;
  may_fall_back = true;
  fell_back = true;
}

had_record-new :
    (stored : Option LegacyServerRecord) (now_ms : ℕ)
    → (new stored now_ms).had_record ≡ is_some stored
unfolding new
had_record-new stored now_ms = ground arith

had_record-close_times :
    (n : ℕ) (p : HandshakePlanner) → (close_times n p).0.had_record ≡ p.had_record
unfolding close_times on_closed_before_hello
had_record-close_times zero p = refl
had_record-close_times (suc n) p =
    ground (arith, had_record-close_times n (on_closed_before_hello p).0)

-- However many connections close, a plan retries at once at most one time: once without a current
-- record, after which it offers the base protocol alone, and never with one.
pub one_fallback :
    (stored : Option LegacyServerRecord) (now_ms n : ℕ)
    → let (last, retries) = close_times (suc n) (new stored now_ms) in
      (retries ≡ (if is_current stored now_ms then 0 else 1)) × (last.offered ≡ v1 ∷ [])
unfolding close_times on_closed_before_hello new
one_fallback stored now_ms n =
    ground (arith, settled n legacy_plan refl, settled n (fallen_plan (is_some stored)) refl)

-- A fallback that the server accepted is remembered for a day, so a later plan within that day
-- offers the base protocol alone, and one after it offers the extended protocol again.
pub fallback_remembered :
    (stored : Option LegacyServerRecord) (now_ms later_ms : ℕ)
    → is_current stored now_ms ≡ false
    → now_ms + legacy_retry_interval_ms ≤ u64_max
    → let plan = (close_times 1 (new stored now_ms)).0 in
      let cached = kept stored (on_accepted plan v1 now_ms) in
      (new cached later_ms).offered
      ≡ (if ltb later_ms (now_ms + legacy_retry_interval_ms) then v1 ∷ [] else v2 ∷ v1 ∷ [])
unfolding close_times on_closed_before_hello new on_accepted
fallback_remembered stored now_ms later_ms expired fits = ground arith

-- An extended acceptance leaves no record, whatever was stored and however the plan began.
pub extended_forgets :
    (stored : Option LegacyServerRecord) (now_ms n : ℕ)
    → kept stored (on_accepted (close_times n (new stored now_ms)).0 v2 now_ms) ≡ none
unfolding on_accepted
extended_forgets stored now_ms n =
    ground (arith, had_record-close_times n (new stored now_ms), had_record-new stored now_ms)

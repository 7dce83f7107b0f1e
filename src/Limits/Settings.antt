-- ===== src/Limits/Settings.antt =====
-- limits.rs, `Settings` and its validation.
use pari_ns.Prelude.{ℕ, Bool, false, Option, none, some, ◌&&◌, leb, if◌then◌else◌}

pub record Settings : Type 0 where
  pub enabled : Bool
  pub rate_per_sec : ℕ
  pub burst : ℕ
  pub max_sources : ℕ
  pub ipv4_prefix : ℕ
  pub ipv6_prefix : ℕ
  pub max_inflight : ℕ
  pub max_connections : ℕ

abbrev pub default : Settings
default = record {
  enabled = false;
  rate_per_sec = 100;
  burst = 200;
  max_sources = 4096;
  ipv4_prefix = 32;
  ipv6_prefix = 64;
  max_inflight = 32;
  max_connections = 8;
}

-- The field that a refused configuration is blamed on.
pub data Invalid : Type 0 where
  rate_per_sec_range burst_range max_sources_range max_inflight_range : Invalid
  max_connections_range ipv4_prefix_range ipv6_prefix_range : Invalid

abbrev in_range : ℕ → ℕ → Bool
in_range top n = leb 1 n && leb n top

-- The checks in the order of the two loops and the two last tests; `none` accepts.
unfoldable pub validate : Settings → Option Invalid
validate s =
    if in_range 1000000 s.rate_per_sec
    then if in_range 1000000 s.burst
      then if in_range 65536 s.max_sources
        then if in_range 65536 s.max_inflight
          then if in_range 65536 s.max_connections
            then if leb s.ipv4_prefix 32
              then if leb s.ipv6_prefix 128 then none else some ipv6_prefix_range
              else some ipv4_prefix_range
            else some max_connections_range
          else some max_inflight_range
        else some max_sources_range
      else some burst_range
    else some rate_per_sec_range

-- ===== src/Tests/Shard.antt =====
-- A shard over the concrete subnets of `Tests/Cidr.antt` and the concrete cache of
-- `Tests/Lru.antt`, with numbers for keys and wire bytes.
use pari_ns.Prelude.{
  ◌&&◌, inl, ◌==◌, arith, ℕ, ◌≡◌, refl, Bool, true, false, Option, none, some, ℕ_discrete, count,
}
use pari_ns.Prelude.Assoc.{lookup, insert, remove}
use pari_ns.Net.{v4}
use pari_ns.Ecs.Scope.{Subnet, Scope, network, matches, is_network_of, scope_prefix_len}
use pari_ns.Ecs.Overlap.{scopes_overlap}
use pari_ns.Sharing.Samples.{retain}
use pari_ns.Cache.Decision.{StoreDecision, is_admitted, skip, reject, capacity, record_eviction}
use pari_ns.Cache.Select.{Entry, is_eligible, rank_le, later_best, best_from, place_of, select}
use pari_ns.Cache.Shard.{
  Cached, Shard, checked_sub, discharge, take_out, leave_bucket, remove_entry, remove_id,
  remove_all, eviction_state, evict, prune,
}
use pari_ns.Cache.Lru.{last}
use pari_ns.Cache.Admit.{
  Layout, Stored, charge, publish, entry_of, cached_of, place, make_room, finish_place,
  variants_full, least_used, oldest_variant, eviction_reason,
}
use pari_ns.Cache.Store.{
  Sharing, StoreConfig, Request, Locked, answer, prepared, cut_lifetime, classify, restore_fits,
  stored_of, supersede, admit_classified, admit_locked, admit,
}
use pari_ns.Cache.Serve.{Found, count_hit, touch, lookup_locked}
use pari_ns.Cache.Consistent.{IsShard}
use pari_ns.Cache.New.{new_shard, new_shard-IsShard}
use pari_ns.Cache.Publish
use pari_ns.Cache.RoundTrip
use pari_ns.Cache.AdmitLaws
use pari_ns.Cache.FailureLaws
use pari_ns.Cache.ServeLaws
use pari_ns.Cache.InvalidateLaws
use pari_ns.Cache.Placement
use pari_ns.Cache.Eviction
use pari_ns.Cache.Removal
use pari_ns.Cache.Invalidate.{invalidate_shard, by_scope, named}
use pari_ns.Tests.Cidr.{cidr, Cidr-discrete, new, trunc, contains}
use pari_ns.Tests.Lru.{used_lru, pop_used, put_used, promote_used, demote_used}

program : Unit {0}
unfolding cidr Cidr-discrete new trunc contains ℕ_discrete matches is_network_of scope_prefix_len
    is_eligible rank_le later_best best_from place_of select scopes_overlap retain is_admitted skip
    reject record_eviction checked_sub discharge take_out leave_bucket remove_entry remove_id
    remove_all eviction_state evict prune last charge publish entry_of cached_of place make_room
    finish_place variants_full least_used oldest_variant eviction_reason cut_lifetime classify
    restore_fits stored_of supersede admit_classified admit_locked admit count_hit touch named
    by_scope invalidate_shard lookup_locked used_lru pop_used put_used promote_used demote_used
    lookup insert remove count
program = tt

abbrev Bytes : Type 0
Bytes = ℕ

abbrev layout : Layout ℕ ℕ
layout = record { wire_len = λ w. w; name_len = λ k. 4; entry_size = 100; key_size = 20 }

-- Answers keep their scope.
abbrev sharing : Sharing cidr ℕ ℕ
sharing = record {
  Table = Unit {0};
  observe = λ key sc print lifetime now t. (sc, false, t);
  forget = λ by_key sc t. t;
}

abbrev St : Type 0
St = Shard cidr ℕ_discrete (used_lru (Cached cidr ℕ ℕ))

abbrev LockedShard : Type 0
LockedShard = Locked cidr ℕ_discrete (used_lru (Cached cidr ℕ ℕ)) layout sharing

-- Room for two positive entries and one negative.
abbrev empty : St
empty = new_shard cidr ℕ_discrete (used_lru (Cached cidr ℕ ℕ)) (record {
  positive_max_entries = 2;
  positive_max_bytes = 1000;
  negative_max_entries = 1;
  negative_max_bytes = 400;
})

-- 192.0.2.0/24.
test_net : Scope cidr
unfolding cidr
test_net = network (record { base = v4 0xc000_0200; len = 24 })

abbrev client : Subnet
client = record { addr = v4 0xc000_0207; source_prefix = 24; scope_prefix = 0 }

-- An answer of 40 bytes that lives for ten seconds.
abbrev old_answer : Stored cidr ℕ
old_answer = record {
  wire = 40;
  scope = test_net;
  lifetime = 10_000_000_000;
  retention = 10_000_000_000;
  negative = false;
  failure = none;
  prefetch = false;
  refreshed = false;
  accessed = none;
}

stocked : St
unfolding program
stocked = publish cidr ℕ_discrete (used_lru (Cached cidr ℕ ℕ)) layout 7 old_answer 0 empty

stocked-IsShard : IsShard cidr ℕ_discrete (used_lru (Cached cidr ℕ ℕ)) stocked
unfolding program stocked
stocked-IsShard =
    Publish.publish-IsShard cidr ℕ_discrete (used_lru (Cached cidr ℕ ℕ)) layout 7 old_answer 0 empty
      (omega arith) (omega arith) (new_shard-IsShard cidr ℕ_discrete (used_lru (Cached cidr ℕ ℕ)) _)

abbrev before : LockedShard
before = record { shard = stocked; table = tt }

abbrev config : StoreConfig
config = record {
  max_variants = 4;
  stale_retention = 3_600_000_000_000;
  sharing_enabled = false;
  servfail_ttl = 5;
}

-- A new answer of 50 bytes for the key 7 that lives for a minute.
abbrev request : Request ℕ ℕ ℕ
request = record {
  key = some 7;
  rejection = capacity;
  bypass = false;
  stale = true;
  prefetch = false;
  negative_ttl_cap = 60;
  superseding = true;
  complete = true;
  prepared = prepared 50 60 false;
  fingerprint = none;
}

abbrev decided : Option (StoreDecision × LockedShard) → StoreDecision × LockedShard
decided none = (skip capacity, before)
decided (some r) = r

outcome : Option (StoreDecision × LockedShard)
unfolding program stocked test_net
outcome =
    admit cidr ℕ_discrete (used_lru (Cached cidr ℕ ℕ)) layout sharing config request answer test_net
      5_000_000_000 1 1 before

outcome_admitted : is_admitted (decided outcome).0 ≡ true
unfolding program stocked test_net outcome
outcome_admitted = refl

outcome_decided : outcome ≡ some (decided outcome)
unfolding program stocked test_net outcome
outcome_decided = refl

matches-client : matches cidr test_net (some client) ≡ true
unfolding program test_net
matches-client = refl

admit-lookup_example :
    RoundTrip.Finds cidr ℕ_discrete (used_lru (Cached cidr ℕ ℕ)) layout sharing 50 7 test_net (
      lookup_locked cidr ℕ_discrete
        (used_lru (Cached cidr ℕ ℕ))
        7
        (some client)
        30_000_000_000
        false
        true
        (decided outcome).1.shard)
unfolding outcome
admit-lookup_example =
    RoundTrip.admit-lookup cidr ℕ_discrete (used_lru (Cached cidr ℕ ℕ)) layout sharing config
      request answer 7 test_net 5_000_000_000 30_000_000_000 1 1 50 60 false (some client) true
      before (decided outcome).1 (decided outcome).0 stocked-IsShard refl refl refl refl
      outcome_decided outcome_admitted matches-client (omega arith)

admit_total_example :
    AdmitLaws.Outcome cidr ℕ_discrete
      (used_lru (Cached cidr ℕ ℕ))
      layout
      sharing
      config
      request
      answer
      test_net
      5_000_000_000
      before
      (admit cidr ℕ_discrete
        (used_lru (Cached cidr ℕ ℕ))
        layout
        sharing
        config
        request
        answer
        test_net
        5_000_000_000
        1
        1
        before)
admit_total_example =
    AdmitLaws.admit_total cidr ℕ_discrete (used_lru (Cached cidr ℕ ℕ)) layout sharing config request
      answer test_net 5_000_000_000 1 1 before stocked-IsShard

lookup_total_example :
    (found : Found cidr ℕ_discrete (used_lru (Cached cidr ℕ ℕ))) × (lookup_locked cidr ℕ_discrete
        (used_lru (Cached cidr ℕ ℕ))
        7
        (some client)
        5_000_000_000
        false
        true
        stocked
      ≡ some found)
    × IsShard cidr ℕ_discrete (used_lru (Cached cidr ℕ ℕ)) found.shard
    × ServeLaws.Served cidr ℕ_discrete
        (used_lru (Cached cidr ℕ ℕ))
        7
        (some client)
        5_000_000_000
        false
        stocked
        found.entry
lookup_total_example =
    ServeLaws.lookup_total cidr ℕ_discrete (used_lru (Cached cidr ℕ ℕ)) 7 (some client)
      5_000_000_000 false true stocked stocked-IsShard

abbrev sevens : ℕ → Bool
sevens k = k == 7

place_total_example :
    Placement.Decided cidr ℕ_discrete
      (used_lru (Cached cidr ℕ ℕ))
      layout
      8
      old_answer
      5_000_000_000
      false
      stocked
      (place cidr ℕ_discrete
        (used_lru (Cached cidr ℕ ℕ))
        layout
        4
        8
        old_answer
        5_000_000_000
        false
        stocked)
place_total_example =
    Placement.place_total cidr ℕ_discrete (used_lru (Cached cidr ℕ ℕ)) layout 4 8 old_answer
      5_000_000_000 false stocked stocked-IsShard

make_room_lem_example :
    Eviction.Made cidr ℕ_discrete (used_lru (Cached cidr ℕ ℕ)) layout false 900 stocked (
      make_room cidr ℕ_discrete
        (used_lru (Cached cidr ℕ ℕ))
        layout
        2
        false
        900
        5_000_000_000
        stocked)
unfolding program stocked
make_room_lem_example =
    Eviction.make_room_lem cidr ℕ_discrete (used_lru (Cached cidr ℕ ℕ)) layout 2 false 900
      5_000_000_000 stocked (omega arith) stocked-IsShard

remove_id_total_example :
    (st' : St) × (remove_id cidr ℕ_discrete (used_lru (Cached cidr ℕ ℕ)) false 1 stocked ≡ some st')
    × IsShard cidr ℕ_discrete (used_lru (Cached cidr ℕ ℕ)) st'
    × ((used_lru (Cached cidr ℕ ℕ)).peek 1 (st'.partitions false).lru ≡ none)
remove_id_total_example =
    Removal.remove_id_total cidr ℕ_discrete (used_lru (Cached cidr ℕ ℕ)) false 1 stocked
      stocked-IsShard

-- An entry for another key beside the first.
two : St
unfolding program stocked
two = publish cidr ℕ_discrete (used_lru (Cached cidr ℕ ℕ)) layout 8 old_answer 1_000_000_000 stocked

two-IsShard : IsShard cidr ℕ_discrete (used_lru (Cached cidr ℕ ℕ)) two
unfolding program stocked two
two-IsShard =
    Publish.publish-IsShard cidr ℕ_discrete (used_lru (Cached cidr ℕ ℕ)) layout 8 old_answer
      1_000_000_000 stocked (omega arith) (omega arith) stocked-IsShard

abbrev both : LockedShard
both = record { shard = two; table = tt }

abbrev cleared_of : Option (ℕ × LockedShard) → ℕ × LockedShard
cleared_of none = (0, both)
cleared_of (some r) = r

cleared : Option (ℕ × LockedShard)
unfolding program stocked two test_net
cleared =
    invalidate_shard cidr ℕ_discrete (used_lru (Cached cidr ℕ ℕ)) layout sharing sevens none both

cleared_one : (cleared_of cleared).0 ≡ 1
unfolding program stocked two test_net cleared
cleared_one = refl

cleared_run : cleared ≡ some (cleared_of cleared)
unfolding program stocked two test_net cleared
cleared_run = refl

second_entry : Entry cidr
unfolding program
second_entry =
    entry_of cidr ℕ_discrete (used_lru (Cached cidr ℕ ℕ)) layout 2 old_answer 1_000_000_000

invalidate-bucket_example :
    (sevens 8
      && by_scope cidr ℕ_discrete
          (used_lru (Cached cidr ℕ ℕ))
          layout
          sharing
          none
          second_entry.scope)
    ≡ false
unfolding program stocked two test_net cleared second_entry
invalidate-bucket_example =
    InvalidateLaws.invalidate-bucket cidr ℕ_discrete (used_lru (Cached cidr ℕ ℕ)) layout sharing
      sevens none both (cleared_of cleared).1 (cleared_of cleared).0 8 second_entry two-IsShard refl
      (inl refl)

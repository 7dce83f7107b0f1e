-- ===== src/Tests/Cache.antt =====
-- Buckets over the concrete subnets of `Tests/Cidr.antt`, and the shares of a small cache.
use pari_ns.Prelude.{
  arith, length, All, ◌≤◌, ◌≡◌, refl, inl, inr, true, false, none, some, List, [], ◌∷◌, ℕ_discrete,
}
use pari_ns.Net.{v4}
use pari_ns.Ecs.Scope.{Subnet, network, matches, is_network_of, scope_prefix_len}
use pari_ns.Cache.Select.{
  Entry, Member, is_eligible, rank_le, later_best, best_from, place_of, select,
}
use pari_ns.Cache.Best
use pari_ns.Cache.Best.{Serves, NotPreferred}
use pari_ns.Cache.Sizing.{
  CacheConfig, negative_entries, negative_bytes, shard_count, portion, budgets_of, budgets_from,
  new_budgets,
}
use pari_ns.Cache.Shares
use pari_ns.Tests.Cidr.{cidr, Cidr-discrete, new, trunc, contains}

program : Unit {0}
unfolding cidr Cidr-discrete new trunc contains ℕ_discrete matches is_network_of scope_prefix_len
    is_eligible rank_le later_best best_from place_of select
program = tt

abbrev client : Subnet
client = record { addr = v4 0xc000_0207; source_prefix = 24; scope_prefix = 0 }

-- A fresh answer for 192.0.0.0/16, and a stale one for 192.0.2.0/24.
broad : Entry cidr
unfolding cidr
broad = record {
  id = 1;
  scope = network (record { base = v4 0xc000_0000; len = 16 });
  inserted = 90;
  lifetime = 60;
  retention = 600;
  negative = false;
  failure = none;
}

narrow : Entry cidr
unfolding cidr
narrow = record {
  id = 2;
  scope = network (record { base = v4 0xc000_0200; len = 24 });
  inserted = 0;
  lifetime = 60;
  retention = 600;
  negative = false;
  failure = none;
}

abbrev bucket : List (Entry cidr)
bucket = broad ∷ narrow ∷ []

fresh_first : select cidr (some bucket) (some client) 100 true ≡ some (false, 1)
unfolding program broad narrow
fresh_first = refl

narrow_eligible : is_eligible cidr (some client) 100 true narrow ≡ true
unfolding program narrow
narrow_eligible = refl

select-NotPreferred_example :
    (e : Entry cidr) × (select cidr (some bucket) (some client) 100 true ≡ some (place_of cidr e))
    × Member cidr e bucket
    × NotPreferred cidr (some client) 100 true narrow e
select-NotPreferred_example =
    Best.select-NotPreferred cidr (some client) 100 true bucket narrow (inr (inl refl))
      narrow_eligible

-- Eleven entries, two of them for negative answers, over four shards at most.
abbrev config : CacheConfig
config = record { max_entries = 11; max_bytes = 20480; shards = 4; negative_percent = 20 }

two_shards :
    new_budgets config
    ≡ record {
      positive_max_entries = 5;
      positive_max_bytes = 8192;
      negative_max_entries = 1;
      negative_max_bytes = 2048;
    }
      ∷ record {
        positive_max_entries = 4;
        positive_max_bytes = 8192;
        negative_max_entries = 1;
        negative_max_bytes = 2048;
      }
      ∷ []
unfolding new_budgets budgets_from budgets_of portion shard_count negative_entries negative_bytes
two_shards = refl

new_budgets-IsUsable_example :
    (1 ≤ length (new_budgets config))
    × (length (new_budgets config) ≤ 4)
    × All (λ b. Shares.IsUsable config b) (new_budgets config)
new_budgets-IsUsable_example =
    Shares.new_budgets-IsUsable config (omega arith) (omega arith) (omega arith)

-- ===== src/Tests/Ecs.antt =====
-- Client subnets over the concrete subnets of `Tests/Cidr.antt`.
use pari_ns.Prelude.{◌≡◌, refl, true, none, some, ℕ_discrete}
use pari_ns.Net.{v4, canonical_peer, IpAddr-discrete}
use pari_ns.Ecs.Scope.{Subnet, Scope, network, exact_source, matches, is_network_of}
use pari_ns.Ecs.Overlap
use pari_ns.Ecs.Overlap.{scopes_overlap}
use pari_ns.Ecs.Prepare
use pari_ns.Ecs.Identity
use pari_ns.Ecs.Prepare.{
  Message, Config, Context, rejected, prepared, refused, subnet, set_subnet, cut_payload,
  asks_scope, choose_network, chosen_addr, chosen_prefix, send, prepare_enabled, prepare, IsPrivate,
}
use pari_ns.Ecs.Response
use pari_ns.Ecs.Response.{
  response_matches, received_prefix, same_source, source_scope, cache_scope, response_scope,
}
use pari_ns.Tests.Cidr.{cidr, Cidr, Cidr-discrete, new, trunc, contains}

program : Unit {0}
unfolding cidr Cidr-discrete new trunc contains ℕ_discrete matches is_network_of scopes_overlap
    subnet set_subnet cut_payload asks_scope choose_network chosen_addr chosen_prefix send
    prepare_enabled prepare source_scope same_source IpAddr-discrete cache_scope response_scope
    canonical_peer
program = tt

-- 192.0.2.0/24, in whose scope an answer holds, and the subnet 192.0.2.128/25.
abbrev wide : Cidr
wide = record { base = v4 0xc000_0200; len = 24 }

abbrev half : Subnet
half = record { addr = v4 0xc000_0280; source_prefix = 25; scope_prefix = 0 }

abbrev exact : Cidr
exact = record { base = v4 0xc000_0280; len = 25 }

wide_scope : Scope cidr
unfolding cidr
wide_scope = network wide

exact_scope : Scope cidr
unfolding cidr
exact_scope = exact_source exact

wide_matches : matches cidr wide_scope (some half) ≡ true
unfolding program wide_scope
wide_matches = refl

exact_matches : matches cidr exact_scope (some half) ≡ true
unfolding program exact_scope
exact_matches = refl

overlap_of_match_example : scopes_overlap cidr wide_scope exact_scope ≡ true
overlap_of_match_example =
    Overlap.overlap_of_match cidr wide_scope exact_scope (some half) wide_matches exact_matches

abbrev config : Config
config = record { enabled = true; ipv4_prefix = 24; ipv6_prefix = 56 }

-- A client at 192.0.2.7 without a subnet of its own, and one that names another network.
abbrev plain : Message
plain = record { class_in = true; edns = none }

abbrev sent : Subnet
sent = record { addr = v4 0xc000_0200; source_prefix = 24; scope_prefix = 0 }

abbrev upstream : Message
upstream = record {
  class_in = true;
  edns = some (record { max_payload = 1232; client_subnet = some sent });
}

abbrev context : Context
context = record { incoming = none; outgoing = some sent }

plain_prepared : prepare cidr plain (v4 0xc000_0207) config ≡ prepared upstream context
unfolding program
plain_prepared = refl

prepare-IsPrivate_example :
    (context.outgoing ≡ some sent) × (config.enabled ≡ true) × IsPrivate cidr config sent
unfolding subnet
prepare-IsPrivate_example =
    Prepare.prepare-IsPrivate cidr plain (v4 0xc000_0207) config upstream context sent
      plain_prepared refl

-- A client that names the network of another.
abbrev foreign : Message
foreign = record {
  class_in = true;
  edns = some (record { max_payload = 4096; client_subnet = some half });
}

foreign_refused : prepare cidr foreign (v4 0x0a00_0001) config ≡ rejected refused
unfolding program
foreign_refused = refl

-- The upstream answers for 192.0.0.0/16.
abbrev answer : Message
answer = record {
  class_in = true;
  edns =
      some
        (record { max_payload = 1232; client_subnet = some (record sent { scope_prefix = 16 }) });
}

sixteen : Scope cidr
unfolding cidr
sixteen = network (record { base = v4 0xc000_0000; len = 16 })

answer_scope : (response_scope cidr context answer).cache ≡ some sixteen
unfolding program sixteen
answer_scope = refl

response_scope-matches_example : matches cidr sixteen (some sent) ≡ true
response_scope-matches_example =
    Response.response_scope-matches cidr context answer sixteen answer_scope

-- An answer for another source than the one that was sent.
abbrev stray : Message
stray = record {
  class_in = true;
  edns = some (record { max_payload = 1232; client_subnet = some half });
}

mismatch_uncached_example :
    ((response_scope cidr context stray).cache ≡ none)
    × ((response_scope cidr context stray).reply ≡ received_prefix cidr (subnet stray))
unfolding program response_matches
mismatch_uncached_example = Response.mismatch_uncached cidr context upstream stray refl refl

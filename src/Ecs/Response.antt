-- ===== src/Ecs/Response.antt =====
-- ecs.rs, `Context`: the scope in which an answer may be reused, and the prefix that the client is
-- told.
use pari_ns.Prelude.{
  ℕ, ◌≤◌, ◌≡◌, refl, inl, inr, Bool, true, false, Option, none, some, ◌&&◌, leb, ◌==◌,
  if◌then◌else◌, ite, arith, Bool-cases, some_eq, if_pos,
}
use pari_ns.Net.{IpAddr-discrete, is_ipv4, IpNet, new_parts, contains_self}
use pari_ns.Ecs.Scope.{
  Subnet, Scope, no_ecs, privacy, network, exact_source, same, matches, is_network_of, reply_scope,
}
use pari_ns.Ecs.Prepare.{Message, Context, subnet}

-- The upstream's address and source prefix are those that were sent.
unfoldable pub same_source : Subnet → Subnet → Bool
same_source sent received =
    ite (IpAddr-discrete received.addr sent.addr) true false
    && received.source_prefix == sent.source_prefix

-- `response_matches`, on the subnets of the query and of the response.
unfoldable pub response_matches : Message → Message → Bool
response_matches query response = elim (subnet response) [
  | none ↦ true
  | some received ↦ elim (subnet query) [ none ↦ false | some sent ↦ same_source sent received ]
]

module _ (ip : IpNet) where
  open ip use {
    Net, net_discrete, addr, prefix_len, new, trunc, contains, contains_trunc, prefix_len_trunc,
  }

  pub record ResponseScope : Type 0 where
    pub cache : Option (Scope ip)
    pub reply : Option ℕ

  exact_of : Option Net → Option (Scope ip)
  exact_of none = none
  exact_of (some n) = some (exact_source (trunc n))

  network_of : Option Net → Option (Scope ip)
  network_of none = none
  network_of (some n) = some (network (trunc n))

  -- `Context::source_scope`.
  unfoldable pub source_scope : Option Subnet → Option (Scope ip)
  unfolding exact_of
  source_scope none = some no_ecs
  source_scope (some sent) =
      if sent.source_prefix == 0
      then some (privacy (is_ipv4 sent.addr))
      else exact_of (new sent.addr sent.source_prefix)

  -- The scope of an answer whose subnet echoes the one that was sent.
  scope_of_echo : Subnet → Subnet → Option (Scope ip)
  scope_of_echo sent received =
      if sent.source_prefix == 0
      then some (privacy (is_ipv4 sent.addr))
      else network_of (new sent.addr received.scope_prefix)

  -- The `cache` part of `Context::response_scope`.
  unfoldable pub cache_scope : Option Subnet → Option Subnet → Option (Scope ip)
  unfolding scope_of_echo network_of
  cache_scope outgoing none = source_scope outgoing
  cache_scope none (some received) = none
  cache_scope (some sent) (some received) =
      if same_source sent received && leb received.scope_prefix sent.source_prefix
      then scope_of_echo sent received
      else none

  reply_of_scope : Option (Scope ip) → Option Subnet → Option ℕ
  reply_of_scope none outgoing = none
  reply_of_scope (some sc) outgoing = reply_scope ip sc outgoing

  unfoldable pub received_prefix : Option Subnet → Option ℕ
  received_prefix none = none
  received_prefix (some ecs) = some ecs.scope_prefix

  -- The prefix of a scope, or else the upstream's own.
  unfoldable pub reply_of : Option (Scope ip) → Option Subnet → Option Subnet → Option ℕ
  unfolding reply_of_scope received_prefix
  reply_of cache outgoing received = elim (reply_of_scope cache outgoing) [
    | some p ↦ some p
    | none ↦ received_prefix received
  ]

  -- `Context::response_scope`.
  unfoldable pub response_scope : Context → Message → ResponseScope
  response_scope ctx response =
      let cache = cache_scope ctx.outgoing (subnet response) in
      record { cache = cache; reply = reply_of cache ctx.outgoing (subnet response) }

  exact_matches :
      (sent : Subnet) (o : Option Net) (sc : Scope ip)
      → (sent.source_prefix == 0) ≡ false
      → new sent.addr sent.source_prefix ≡ o
      → exact_of o ≡ some sc
      → matches ip sc (some sent) ≡ true
  unfolding exact_of matches is_network_of
  exact_matches sent none sc h e f = cc
  exact_matches sent (some n) sc h e f =
      let (b, l, w) = new_parts ip sent.addr sent.source_prefix n e in
      let is : exact_source (trunc n) ≡ sc = some_eq f in
      rw
        (
          ← is,
          matches,
          e,
          is_network_of,
          prefix_len_trunc n,
          l,
          if_pos (net_discrete (trunc n) (trunc n)) refl,
        )
        (ground arith)

  network_matches :
      (sent : Subnet) (p : ℕ) (o : Option Net) (sc : Scope ip)
      → (sent.source_prefix == 0) ≡ false
      → p ≤ sent.source_prefix
      → new sent.addr p ≡ o
      → network_of o ≡ some sc
      → matches ip sc (some sent) ≡ true
  unfolding network_of matches
  network_matches sent p none sc h b e f = cc
  network_matches sent p (some n) sc h b e f =
      let (a, l, w) = new_parts ip sent.addr p n e in
      let is : network (trunc n) ≡ sc = some_eq f in
      rw (← is, matches, prefix_len_trunc n, l, contains_trunc n sent.addr, holds n a)
        (ground arith)
    where
      holds : (n : Net) → addr n ≡ sent.addr → contains n sent.addr ≡ true
      holds n a = rw (← a) (contains_self ip n)

  privacy_matches :
      (sent : Subnet) (sc : Scope ip)
      → (sent.source_prefix == 0) ≡ true
      → ◌≡◌ {A = Option (Scope ip)} (some (privacy (is_ipv4 sent.addr))) (some sc)
      → matches ip sc (some sent) ≡ true
  unfolding matches
  privacy_matches sent sc z h = rw (← some_eq h) (family (is_ipv4 sent.addr))
    where
      family : (v : Bool) → (sent.source_prefix == 0 && same v v) ≡ true
      family true = ground arith
      family false = ground arith

  source_scope-matches :
      (outgoing : Option Subnet) (sc : Scope ip)
      → source_scope outgoing ≡ some sc
      → matches ip sc outgoing ≡ true
  unfolding source_scope matches
  source_scope-matches none sc h = rw (← some_eq h)
  source_scope-matches (some sent) sc h = elim (Bool-cases (sent.source_prefix == 0)) [
    | inl z ↦ privacy_matches sent sc z (ground arith)
    | inr z ↦ exact_matches sent (new sent.addr sent.source_prefix) sc z refl (ground arith)
  ]

  cache_scope-matches :
      (outgoing received : Option Subnet) (sc : Scope ip)
      → cache_scope outgoing received ≡ some sc
      → matches ip sc outgoing ≡ true
  unfolding cache_scope scope_of_echo
  cache_scope-matches outgoing none sc h = source_scope-matches outgoing sc h
  cache_scope-matches none (some received) sc h = cc
  cache_scope-matches (some sent) (some received) sc h =
      elim (Bool-cases
        (same_source sent received && leb received.scope_prefix sent.source_prefix)) [
          | inr other ↦ absurd (ground arith)
          | inl echo ↦ elim (Bool-cases (sent.source_prefix == 0)) [
            | inl z ↦ privacy_matches sent sc z (ground arith)
            | inr z ↦
                network_matches sent received.scope_prefix (new sent.addr received.scope_prefix) sc
                  z (ground arith) refl (ground arith)
          ]
        ]

  -- Whatever the upstream answers, the scope under which the answer may be cached serves the very
  -- query that was sent.
  pub response_scope-matches :
      (ctx : Context) (response : Message) (sc : Scope ip)
      → (response_scope ctx response).cache ≡ some sc
      → matches ip sc ctx.outgoing ≡ true
  unfolding response_scope
  response_scope-matches ctx response sc h = cache_scope-matches ctx.outgoing (subnet response) sc h

  mismatch_lem :
      (query response : Message) (outgoing received : Option Subnet)
      → subnet query ≡ outgoing
      → subnet response ≡ received
      → response_matches query response ≡ false
      → cache_scope outgoing received ≡ none
  unfolding response_matches cache_scope
  mismatch_lem query response outgoing none q r h = absurd (ground arith)
  mismatch_lem query response none (some received) q r h = refl
  mismatch_lem query response (some sent) (some received) q r h =
      elim (Bool-cases (same_source sent received)) [
        | inl same_ ↦ absurd (ground arith)
        | inr other ↦ rw (other, cache_scope) refl
      ]

  -- An answer that fails the response check against the query that was sent has no cache scope, and
  -- the reply prefix that goes with it is the upstream's own.
  pub mismatch_uncached :
      (ctx : Context) (query response : Message)
      → subnet query ≡ ctx.outgoing
      → response_matches query response ≡ false
      → ((response_scope ctx response).cache ≡ none)
        × ((response_scope ctx response).reply ≡ received_prefix (subnet response))
  unfolding response_scope reply_of reply_of_scope
  mismatch_uncached ctx query response q h =
      let e = mismatch_lem query response ctx.outgoing (subnet response) q refl h in
      rw (e, reply_of) (refl, refl)

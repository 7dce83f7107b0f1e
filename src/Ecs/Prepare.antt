-- ===== src/Ecs/Prepare.antt =====
-- ecs.rs, `Context::prepare`: the client subnet that is sent upstream. Of a
-- message the model keeps what this code reads: the class of its question and its EDNS record's
-- payload size and client subnet.
use native.Mathlib.Nat.{le_refl}
use pari_ns.Prelude.{
  ℕ, ◌≤◌, min, ◌≡◌, refl, ap, sym, ◌∙◌, inl, inr, Bool, true, false, not, Option, none, some, ◌&&◌,
  ◌||◌, ltb, ◌==◌, if◌then◌else◌, arith, Bool-cases, Option-cases, some_eq, subst,
}
use pari_ns.Net.{IpAddr, is_ipv4, canonical_peer, IpNet, new_parts}
use pari_ns.Ecs.Scope.{Subnet}

abbrev pub max_udp_payload : ℕ
max_udp_payload = 1232

pub record Edns : Type 0 where
  pub max_payload : ℕ
  pub client_subnet : Option Subnet

pub record Message : Type 0 where
  pub class_in : Bool
  pub edns : Option Edns

pub record Config : Type 0 where
  pub enabled : Bool
  pub ipv4_prefix : ℕ
  pub ipv6_prefix : ℕ

pub data Refusal : Type 0 where
  form_err refused : Refusal

pub record Context : Type 0 where
  pub incoming : Option Subnet
  pub outgoing : Option Subnet

pub data Prepared : Type 0 where
  rejected : Refusal → Prepared
  prepared : Message → Context → Prepared

-- `subnet`.
unfoldable pub subnet : Message → Option Subnet
subnet m = elim m.edns [ none ↦ none | some e ↦ e.client_subnet ]

-- `set_subnet`: the old option goes; a new one makes an EDNS record where there is none.
unfoldable pub set_subnet : Message → Option Subnet → Message
set_subnet m none = record m {
  edns = elim m.edns [ none ↦ none | some e ↦ some (record e { client_subnet = none }) ];
}
set_subnet m (some s) = record m {
  edns = elim m.edns [
    | none ↦ some (record { max_payload = max_udp_payload; client_subnet = some s })
    | some e ↦ some (record e { client_subnet = some s })
  ];
}

-- The payload size is cut for the upstream hop.
unfoldable pub cut_payload : Message → Message
cut_payload m = record m {
  edns = elim m.edns [
    | none ↦ none
    | some e ↦ some (record e { max_payload = min e.max_payload max_udp_payload })
  ];
}

pub subnet-set_subnet : (m : Message) (o : Option Subnet) → subnet (set_subnet m o) ≡ o
unfolding subnet set_subnet
subnet-set_subnet m none = ground arith
subnet-set_subnet m (some s) = ground arith

abbrev pub cap : Config → IpAddr → ℕ
cap c a = if is_ipv4 a then c.ipv4_prefix else c.ipv6_prefix

-- A query whose own subnet asks for a scope is malformed.
unfoldable pub asks_scope : Option Subnet → Bool
asks_scope none = false
asks_scope (some ecs) = not (ecs.scope_prefix == 0)

module _ (ip : IpNet) where
  open ip use {Net, addr, prefix_len, new, trunc, contains, family_trunc}

  -- The address and prefix to send, or a refusal: a client may name only a subnet of its own.
  unfoldable pub choose_network : Config → IpAddr → Option Subnet → Option Refusal
  choose_network c peer none = none
  choose_network c peer (some ecs) = elim (new ecs.addr ecs.source_prefix) [
    | none ↦ some form_err
    | some n ↦ if ltb 0 ecs.source_prefix && not (contains n peer) then some refused else none
  ]

  unfoldable pub chosen_addr : IpAddr → Option Subnet → IpAddr
  chosen_addr peer none = peer
  chosen_addr peer (some ecs) = ecs.addr

  unfoldable pub chosen_prefix : Config → IpAddr → Option Subnet → ℕ
  chosen_prefix c peer none = cap c peer
  chosen_prefix c peer (some ecs) = min ecs.source_prefix (cap c ecs.addr)

  unfoldable pub send : Message → Option Subnet → IpAddr → ℕ → Prepared
  send m incoming a p = elim (new a p) [
    | none ↦ rejected form_err
    | some n ↦
        let outgoing : Subnet = record {
          addr = addr (trunc n);
          source_prefix = p;
          scope_prefix = 0;
        } in
        prepared (set_subnet m (some outgoing))
          (record { incoming = incoming; outgoing = some outgoing })
  ]

  unfoldable pub prepare_enabled : Message → IpAddr → Config → Option Subnet → Prepared
  prepare_enabled m peer c incoming = elim (choose_network c peer incoming) [
    | some r ↦ rejected r
    | none ↦ send m incoming (chosen_addr peer incoming) (chosen_prefix c peer incoming)
  ]

  -- `Context::prepare`.
  unfoldable pub prepare : Message → IpAddr → Config → Prepared
  prepare query peer c =
      if asks_scope (subnet query)
      then rejected form_err
      else if not c.enabled || not query.class_in
      then prepared (set_subnet (cut_payload query) none)
          (record { incoming = none; outgoing = none })
      else prepare_enabled (cut_payload query) (canonical_peer peer) c (subnet query)

  -- What may be sent upstream: no scope, at most the configured prefix of its family, and an
  -- address whose host bits are cleared.
  pub record IsPrivate (c : Config) (sent : Subnet) : Type 0 where
    pub no_scope : sent.scope_prefix ≡ 0
    pub capped : sent.source_prefix ≤ cap c sent.addr
    pub truncated :
        (a : IpAddr) × (n : Net) × (new a sent.source_prefix ≡ some n)
        × (sent.addr ≡ addr (trunc n))

  chosen_prefix-le :
      (c : Config) (peer : IpAddr) (incoming : Option Subnet)
      → chosen_prefix c peer incoming ≤ cap c (chosen_addr peer incoming)
  unfolding chosen_prefix chosen_addr
  chosen_prefix-le c peer none = le_refl _
  chosen_prefix-le c peer (some ecs) = omega arith

  -- What a prepared query sends, and what its context remembers.
  abbrev Private : Config → Prepared → Type 0
  Private c (rejected r) = Unit
  Private c (prepared q ctx) =
      (subnet q ≡ ctx.outgoing)
      × ((sent : Subnet) → ctx.outgoing ≡ some sent → (c.enabled ≡ true) × IsPrivate c sent)

  cap_family : (c : Config) (a b : IpAddr) → is_ipv4 a ≡ is_ipv4 b → cap c a ≡ cap c b
  cap_family c a b h = rw h

  send-Private :
      (m : Message) (incoming : Option Subnet) (a : IpAddr) (p : ℕ) (c : Config)
      → c.enabled ≡ true
      → p ≤ cap c a
      → Private c (send m incoming a p)
  unfolding send
  send-Private m incoming a p c on h = elim (Option-cases (new a p)) [
    | inl e ↦ rw (e, send) tt
    | inr (n, e) ↦
        rw (e, send)
          (
            subnet-set_subnet m _,
            λ sent o.
                subst (λ (x : Subnet). (c.enabled ≡ true) × IsPrivate c x) (some_eq o)
                  (
                    on,
                    record {
                      no_scope = refl;
                      capped = rw (cap_family c (addr (trunc n)) a (family n e)) h;
                      truncated = (a, n, e, refl);
                    },
                  ),
          )
  ]
    where
      family : (n : Net) → new a p ≡ some n → is_ipv4 (addr (trunc n)) ≡ is_ipv4 a
      family n e = family_trunc n ∙ ap is_ipv4 (new_parts ip a p n e).0

  prepare_enabled-Private :
      (m : Message) (peer : IpAddr) (c : Config) (incoming : Option Subnet)
      → c.enabled ≡ true
      → Private c (prepare_enabled m peer c incoming)
  unfolding prepare_enabled
  prepare_enabled-Private m peer c incoming on =
      elim (Option-cases (choose_network c peer incoming)) [
        | inl e ↦
            rw (e, prepare_enabled)
              (send-Private m incoming _ _ c on (chosen_prefix-le c peer incoming))
        | inr (r, e) ↦ rw (e, prepare_enabled) tt
      ]

  prepare-Private :
      (query : Message) (peer : IpAddr) (c : Config) → Private c (prepare query peer c)
  unfolding prepare
  prepare-Private query peer c = elim (Bool-cases (asks_scope (subnet query))) [
    | inl bad ↦ rw (bad, prepare) tt
    | inr good ↦ elim (Bool-cases (not c.enabled || not query.class_in)) [
      | inl off ↦ rw (good, prepare, off) (subnet-set_subnet _ none, λ sent o. cc)
      | inr on ↦
          rw (good, prepare, on)
            (prepare_enabled-Private (cut_payload query) (canonical_peer peer) c (subnet query)
              (ground arith))
    ]
  ]

  -- Whatever a client asks, from whatever address: when a prepared query carries a client subnet
  -- upstream, it is the one that the context remembers, ECS is enabled, the subnet has no scope,
  -- its prefix is at most the configured one of its family, and its host bits are cleared.
  pub prepare-IsPrivate :
      (query : Message) (peer : IpAddr) (c : Config) (q : Message) (ctx : Context) (sent : Subnet)
      → prepare query peer c ≡ prepared q ctx
      → subnet q ≡ some sent
      → (ctx.outgoing ≡ some sent) × (c.enabled ≡ true) × IsPrivate c sent
  prepare-IsPrivate query peer c q ctx sent e o =
      let (same, rest) = subst (Private c) e (prepare-Private query peer c) in
      let f : ctx.outgoing ≡ some sent = sym same ∙ o in (f, (rest sent f).0, (rest sent f).1)

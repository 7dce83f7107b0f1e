-- ===== src/Policy/Chain/Reached.antt =====
-- policy.rs, `Policy::apply_response`: it screens all names that the question's name leads to.
use pari_ns.Prelude.{
  ℕ, zero, suc, ◌+◌, ◌≤◌, ◌<◌, ◌≡◌, inl, inr, refl, sym, ◌∙◌, ap, subst, true, false, not, ◌&&◌,
  ◌||◌, Option, none, some, List, [], ◌∷◌, ◌++◌, ◌==◌, length, length-append, if◌then◌else◌,
  Bool-cases, Option-cases, arith,
}
use pari_ns.Prelude.Bytes.{reverse, length-reverse}
use pari_ns.Policy.Chain.{
  Answer, Screened, replaced, passed, same_name, is_in, targets, follow_links, apply_response,
}

module _ {N : Type 0} (dec : Discrete N) where
  -- The names that the CNAME records of the class lead to from a name.
  pub data Reach (cls : ℕ) (answers : List (Answer N)) (question : N) : N → Type 0 where
    here : Reach cls answers question question
    linked :
        {n : N} (target : N)
        → Reach cls answers question n
        → is_in dec target (targets dec cls answers n) ≡ true
        → Reach cls answers question target

  is_in-append :
      (n : N) (xs ys : List N) → is_in dec n (xs ++ ys) ≡ (is_in dec n xs || is_in dec n ys)
  unfolding is_in
  is_in-append n [] ys = refl
  is_in-append n (x ∷ xs) ys = ground (arith, is_in-append n xs ys)

  is_in-reverse : (n : N) (xs : List N) → is_in dec n (reverse xs) ≡ is_in dec n xs
  unfolding is_in reverse
  is_in-reverse n [] = refl
  is_in-reverse n (x ∷ xs) =
      ground (arith, is_in-append n (reverse xs) (x ∷ []), is_in-reverse n xs)

  is_in-head : (n : N) (xs : List N) → is_in dec n (n ∷ xs) ≡ true
  unfolding is_in
  is_in-head n xs = elim (dec n n) [ yes e ↦ ground arith | no ne ↦ absurd (ne refl) ]

  same_name_yes : (a b : N) → a ≡ b → same_name dec a b ≡ true
  same_name_yes a b e = ground arith

  same_name_no : (a b : N) → ¬ (a ≡ b) → same_name dec a b ≡ false
  same_name_no a b ne = ground arith

  same_name_eq : (a b : N) → same_name dec a b ≡ true → a ≡ b
  same_name_eq a b h = ground arith

  is_in-cons :
      (m n : N) (xs : List N) → is_in dec m (n ∷ xs) ≡ (same_name dec m n || is_in dec m xs)
  unfolding is_in
  is_in-cons m n xs = ground arith

  -- The links of names that are not visited yet.
  left : ℕ → List N → List (Answer N) → ℕ
  left cls visited [] = 0
  left cls visited (r ∷ rs) =
      let rest = left cls visited rs in
      elim r.cname [
        | none ↦ rest
        | some target ↦
            if r.dns_class == cls && not (is_in dec r.name visited) then suc rest else rest
      ]

  left-le : (cls : ℕ) (visited : List N) (rs : List (Answer N)) → left cls visited rs ≤ length rs
  unfolding left
  left-le cls visited [] = omega arith
  left-le cls visited (r ∷ rs) = ground (arith, left-le cls visited rs)

  left-visit :
      (cls : ℕ) (visited : List N) (rs : List (Answer N)) (n : N)
      → is_in dec n visited ≡ false
      → left cls (n ∷ visited) rs + length (targets dec cls rs n) ≡ left cls visited rs
  unfolding left targets is_in
  left-visit cls visited [] n h = refl
  left-visit cls visited (r ∷ rs) n h = elim (dec r.name n) [
    | yes e ↦ ground (
      arith,
      left-visit cls visited rs n h,
      ap (λ m. is_in dec m visited) e,
      same_name_yes r.name n e,
    )
    | no ne ↦ ground (arith, left-visit cls visited rs n h, same_name_no r.name n ne)
  ]

  module _ {A : Type 0} (block : N → Option A) (cls : ℕ) (answers : List (Answer N))
      (question : N) where
    -- What the loop knows: what it has visited or has to visit is reached, the visited names are
    -- not blocked, and their links are visited or to be visited.
    record Knows (pending visited : List N) : Type 0 where
      pub reached : (n : N) → is_in dec n pending ≡ true → Reach cls answers question n
      pub asked : (is_in dec question visited || is_in dec question pending) ≡ true
      pub clean : (n : N) → is_in dec n visited ≡ true → block n ≡ none
      pub closed :
          (n m : N)
          → is_in dec n visited ≡ true
          → is_in dec m (targets dec cls answers n) ≡ true
          → (is_in dec m visited || is_in dec m pending) ≡ true

    -- The first blocked name that was reached replaces the answer, or else none that is reached is
    -- blocked.
    pub data Screens : Screened A → Type 0 where
      blocks :
          (n : N) (answer : A)
          → Reach cls answers question n
          → block n ≡ some answer
          → Screens (replaced answer)
      clears : ((n : N) → Reach cls answers question n → block n ≡ none) → Screens passed

    visited_all :
        (visited : List N)
        → Knows [] visited
        → (n : N) → Reach cls answers question n
        → is_in dec n visited ≡ true
    unfolding is_in
    visited_all visited w n here = ground (arith, w.asked)
    visited_all visited w n (linked {n = m} target r e) =
        ground (arith, w.closed m target (visited_all visited w m r) e)

    skip-Knows :
        (n : N) (pending visited : List N)
        → is_in dec n visited ≡ true
        → Knows (n ∷ pending) visited
        → Knows pending visited
    skip-Knows n pending visited seen w = record {
      reached = λ m h. w.reached m (ground (arith, is_in-cons m n pending));
      asked = stays question w.asked;
      clean = w.clean;
      closed = λ m t h k. stays t (w.closed m t h k);
    }
      where
        stays :
            (m : N)
            → (is_in dec m visited || is_in dec m (n ∷ pending)) ≡ true
            → (is_in dec m visited || is_in dec m pending) ≡ true
        stays m h = elim (Bool-cases (same_name dec m n)) [
          | inl e ↦ ground (arith, ap (λ m. is_in dec m visited) (same_name_eq m n e))
          | inr ne ↦ ground (arith, is_in-cons m n pending)
        ]

    visit-Knows :
        (n : N) (pending visited : List N)
        → block n ≡ none
        → Knows (n ∷ pending) visited
        → Knows (reverse (targets dec cls answers n) ++ pending) (n ∷ visited)
    visit-Knows n pending visited free w = record {
      reached = λ m h. elim (Bool-cases (is_in dec m (targets dec cls answers n))) [
        | inl e ↦ linked m (w.reached n (is_in-head n pending)) e
        | inr ne ↦ w.reached m (ground (arith, pushed m, is_in-cons m n pending))
      ];
      asked = moves question w.asked;
      clean = λ m h. elim (Bool-cases (same_name dec m n)) [
        | inl e ↦ ap block (same_name_eq m n e) ∙ free
        | inr ne ↦ w.clean m (ground (arith, is_in-cons m n visited))
      ];
      closed = λ m t h k. elim (Bool-cases (same_name dec m n)) [
        | inl e ↦ ground (
          arith,
          pushed t,
          ap (λ m. is_in dec t (targets dec cls answers m)) (same_name_eq m n e),
        )
        | inr ne ↦ moves t (w.closed m t (ground (arith, is_in-cons m n visited)) k)
      ];
    }
      where
        pushed :
            (m : N)
            → is_in dec m (reverse (targets dec cls answers n) ++ pending)
              ≡ (is_in dec m (targets dec cls answers n) || is_in dec m pending)
        pushed m =
            is_in-append m (reverse (targets dec cls answers n)) pending
            ∙ ap (λ b. b || is_in dec m pending) (is_in-reverse m (targets dec cls answers n))

        moves :
            (m : N)
            → (is_in dec m visited || is_in dec m (n ∷ pending)) ≡ true
            → (is_in dec m (n ∷ visited)
                || is_in dec m (reverse (targets dec cls answers n) ++ pending))
              ≡ true
        moves m h = ground (arith, is_in-cons m n visited, is_in-cons m n pending, pushed m)

    first : Knows (question ∷ []) []
    unfolding is_in
    first = record {
      reached = λ m h.
          subst (Reach cls answers question) (sym (same_name_eq m question (ground arith))) here;
      asked = ground (arith, is_in-head question []);
      clean = λ m h. cc;
      closed = λ m t h k. cc;
    }

    follow_links-Screens :
        (fuel : ℕ) (pending visited : List N)
        → Knows pending visited
        → length pending + left cls visited answers < fuel
        → Screens (follow_links dec block cls answers fuel pending visited)
    unfolding follow_links
    follow_links-Screens zero pending visited w h = absurd (omega arith)
    follow_links-Screens (suc fuel) [] visited w h =
        clears (λ n r. w.clean n (visited_all visited w n r))
    follow_links-Screens (suc fuel) (n ∷ pending) visited w h =
        elim (Bool-cases (is_in dec n visited)) [
          | inl seen ↦
              rw (seen, follow_links)
                (follow_links-Screens fuel pending visited (skip-Knows n pending visited seen w)
                  (omega arith))
          | inr fresh ↦ elim (Option-cases (block n)) [
            | inr (a, is_blocked) ↦
                rw (fresh, follow_links)
                  (rw (is_blocked, follow_links)
                    (blocks n a (w.reached n (is_in-head n pending)) is_blocked))
            | inl free ↦
                rw (fresh, follow_links)
                  (rw (free, follow_links)
                    (follow_links-Screens fuel _ (n ∷ visited)
                      (visit-Knows n pending visited free w)
                      (omega (
                        arith,
                        left-visit cls visited answers n fresh,
                        length-append (reverse (targets dec cls answers n)) pending,
                        length-reverse (targets dec cls answers n),
                      ))))
          ]
        ]

    -- With no rules nothing is blocked. Then the answer is replaced by that of a blocked name to
    -- which the CNAME records of the question's class lead from its name, or else no name to which
    -- they lead is blocked; cycles and repeated links included.
    pub apply_response-Screens :
        (index_rules : ℕ)
        → (index_rules ≡ 0 → (n : N) → block n ≡ none)
        → Screens (apply_response dec block cls answers index_rules question)
    unfolding apply_response is_in
    apply_response-Screens index_rules no_rules = elim (Bool-cases (index_rules == 0)) [
      | inl empty ↦ rw empty (clears (λ n r. no_rules (ground arith) n))
      | inr some_rules ↦ rw some_rules (
          follow_links-Screens (suc (suc (length answers))) (question ∷ []) [] first
            (omega (arith, left-le cls [] answers)))
    ]

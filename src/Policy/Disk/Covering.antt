-- ===== src/Policy/Disk/Covering.antt =====
-- policy/radix_disk.rs, `Index::walk`: every allocated node was visited or is to be visited.
use pari_ns.Prelude.{
  ℕ, suc, ◌+◌, ◌≤◌, ◌<◌, ◌≡◌, refl, sym, ◌∙◌, ap, subst, true, false, some, some_eq, List, [], ◌∷◌,
  ltb, ◌==◌, length, All, Bool-cases, arith, ==_iff, ℕ_discrete, dec_lt, ◌⊎◌, inl, inr,
}
use pari_ns.Prelude.Bytes.{nth}
use pari_ns.Policy.Radix.{Node, Index}
use pari_ns.Policy.Disk.{WalkFrame, Cursor, enter, child_frame, advance, max_depth}
use pari_ns.Policy.Disk.Bools.{if_some, if_yes, if_no}
use pari_ns.Policy.Disk.Entered.{Fact, enter-Fact}

module _ (idx : Index) (source_count : ℕ) where
  abbrev pub IsOk : ℕ → Type 0
  IsOk i =
      (node : Node)
      → nth i idx.nodes ≡ some node
      → (next : ℕ) × (i < next) × Fact idx source_count i next node

  abbrev pub AtFrame : WalkFrame → ℕ → Type 0
  AtFrame f i =
      ((f.entered ≡ false) × (i ≡ f.node))
      ⊎ ((f.entered ≡ true)
          × (node : Node) × (nth f.node idx.nodes ≡ some node)
          × (node.first_child + f.next_child ≤ i)
          × (i < node.first_child + node.child_count))

  abbrev pub IsPending : List WalkFrame → ℕ → Type 0
  IsPending [] i = ⊥
  IsPending (f ∷ fs) i = AtFrame f i ⊎ IsPending fs i

  pub record IsFrame (next : ℕ) (f : WalkFrame) : Type 0 where
    pub allocated : f.node < next
    pub children :
        (node : Node)
        → nth f.node idx.nodes ≡ some node
        → f.entered ≡ true
        → (node.first_child + node.child_count ≤ next) × (f.next_child ≤ node.child_count)
    pub unvisited : f.entered ≡ false → f.next_child ≡ 0

  pub record Covers (frames : List WalkFrame) (cur : Cursor) : Type 0 where
    pub covered : (i : ℕ) → i < cur.next_allocation → IsOk i ⊎ IsPending frames i
    pub framed : All (IsFrame cur.next_allocation) frames

  abbrev pub visit : WalkFrame → WalkFrame
  visit f = record f { entered = true }

  module _ (f : WalkFrame) (fs : List WalkFrame) (node : Node) (cur : Cursor)
      (at : nth f.node idx.nodes ≡ some node) (w : Covers (visit f ∷ fs) cur) where
    frame_node : (node' : Node) → nth f.node idx.nodes ≡ some node' → node' ≡ node
    frame_node node' e = some_eq (sym e ∙ at)

    pop-Covers : f.next_child ≡ node.child_count → Covers fs cur
    pop-Covers done = record {
      covered = λ i h. elim (w.covered i h) [
        | inl ok ↦ inl ok
        | inr (inl (inl (e, _))) ↦ absurd (cc)
        | inr (inl (inr (e, node', e', from, to))) ↦ absurd (
            omega (
              arith,
              done,
              ap (λ (n : Node). n.first_child) (frame_node node' e'),
              ap (λ (n : Node). n.child_count) (frame_node node' e'),
            ))
        | inr (inr later) ↦ inr later
      ];
      framed = w.framed.1;
    }

    push-Covers :
        ¬ (f.next_child ≡ node.child_count)
        → Covers
            (child_frame f node ∷ record f { next_child = f.next_child + 1; entered = true } ∷ fs)
            cur
    push-Covers more = record {
      covered = λ i h. elim (w.covered i h) [
        | inl ok ↦ inl ok
        | inr (inl (inl (e, _))) ↦ absurd (cc)
        | inr (inl (inr (e, node', e', from, to))) ↦
            let same = frame_node node' e' in
            let first = ap (λ (n : Node). n.first_child) same in
            let count = ap (λ (n : Node). n.child_count) same in
            elim (ℕ_discrete i (node.first_child + f.next_child)) [
              | yes here ↦ inr (inl (inl (refl, here)))
              | no beyond ↦ inr (
                  inr (
                    inl (inr (refl, node, at, ground (arith, first), omega (arith, count, first)))))
            ]
        | inr (inr later) ↦ inr (inr (inr later))
      ];
      framed = (
        record {
          allocated = ground (arith, w.framed.0.children node at refl);
          children = λ n e b. cc;
          unvisited = λ e. refl;
        },
        (
          record {
            allocated = w.framed.0.allocated;
            children = λ n e b.
                let (a, c) = w.framed.0.children n e refl in
                (a, ground (arith, ap (λ (n : Node). n.child_count) (frame_node n e)));
            unvisited = λ e. cc;
          },
          w.framed.1,
        ),
      );
    }

    pub advance-Covers :
        (r : List WalkFrame × Cursor) → advance f fs node cur ≡ some r → Covers r.0 r.1
    unfolding advance
    advance-Covers r h = elim (Bool-cases (f.next_child == node.child_count)) [
      | inl done ↦
          subst (λ (r : List WalkFrame × Cursor). Covers r.0 r.1)
            (some_eq (sym (if_yes (f.next_child == node.child_count) _ _ done) ∙ h))
            (pop-Covers ((==_iff f.next_child node.child_count).0 done))
      | inr more ↦
          let pushed =
            if_some (ltb (suc (length fs)) max_depth) _ r
              (sym (if_no (f.next_child == node.child_count) _ _ more) ∙ h) in
          subst (λ (r : List WalkFrame × Cursor). Covers r.0 r.1) pushed.1
            (push-Covers (λ e. absurd (ground arith)))
    ]

  frames_mono : (fs : List WalkFrame) (n m : ℕ) → n ≤ m → All (IsFrame n) fs → All (IsFrame m) fs
  frames_mono [] n m h k = tt
  frames_mono (f ∷ fs) n m h (w, k) = (
    record {
      allocated = omega (arith, w.allocated);
      children = λ node e b. let (a, c) = w.children node e b in (omega arith, c);
      unvisited = w.unvisited;
    },
    frames_mono fs n m h k,
  )

  pub enter-Covers :
      (f : WalkFrame) (fs : List WalkFrame) (node : Node) (cur cur' : Cursor)
      → nth f.node idx.nodes ≡ some node
      → f.entered ≡ false
      → Covers (f ∷ fs) cur
      → enter idx source_count f node cur ≡ some cur'
      → Covers (visit f ∷ fs) cur'
  enter-Covers f fs node cur cur' at fresh w h =
      let (fact, next) = enter-Fact idx source_count f node cur cur' h in
      record {
        covered = λ i small. elim (dec_lt i cur.next_allocation) [
          | yes old ↦ elim (w.covered i old) [
            | inl ok ↦ inl ok
            | inr (inl (inl (e, here))) ↦ inl (λ node' e'.
                let same : node ≡ node' =
                  some_eq (sym at ∙ ap (λ (j : ℕ). nth j idx.nodes) (sym here) ∙ e') in
                (
                  cur.next_allocation,
                  old,
                  subst (λ (n : Node). Fact idx source_count i cur.next_allocation n) same
                      (subst (λ (j : ℕ). Fact idx source_count j cur.next_allocation node)
                        (sym here) fact),
                ))
            | inr (inl (inr (e, n, e', a, b))) ↦ absurd (cc)
            | inr (inr later) ↦ inr (inr later)
          ]
          | no new ↦ inr (
              inl (
                inr (
                  refl,
                  node,
                  at,
                  omega (arith, fact.at_next, w.framed.0.unvisited fresh),
                  omega (arith, fact.at_next, next),
                )))
        ];
        framed = (
          record {
            allocated = omega (arith, w.framed.0.allocated, next);
            children = λ n e b.
                let same : n ≡ node = some_eq (sym e ∙ at) in
                (
                  ground (
                    arith,
                    next,
                    fact.at_next,
                    ap (λ (n : Node). n.first_child) same,
                    ap (λ (n : Node). n.child_count) same,
                  ),
                  omega (arith, w.framed.0.unvisited fresh),
                );
            unvisited = λ e. cc;
          },
          frames_mono fs cur.next_allocation cur'.next_allocation (omega (arith, next)) w.framed.1,
        );
      }

-- ===== src/ProcessList/Node.antt =====
-- The forests of the children and of the siblings of a process, put together behind one round of the
-- loop over the children.
use htop.Prelude.{
  ℕ, suc, ◌+◌, ◌*◌, ◌≤◌, ◌≡◌, ◌≢◌, refl, sym, ap, subst, ◌∙◌, Bool, true, false, List, ◌∷◌, ◌++◌,
  arith, length-append, leb, ◌==◌, if◌then◌else◌, Bool-cases, inl, inr,
}
use htop.Prelude.Int.{ℤ}
use htop.Prelude.Count.{count, count-append}
use htop.Process.{Process, get_parent_pid}
use htop.ProcessList.{Tree, open_child, close_child}
use htop.ProcessList.Order.{Sub-trans, count-Sub}
use htop.ProcessList.Forest.{
  Forest, node, preorder, size, occurs, Distinct, place, entries, Placed, Drawn, Grown,
  place-append, entries-append, Drawn-frame, Drawn-at, Childless, Childless-frame,
}
use htop.ProcessList.Opened.{
  write-other, write-same, occurs-here, occurs-ne, opened, opened-shows, opened-other, round-other,
}

module _ (level : ℕ) (ascending shown : Bool) (parent : ℕ) (p : ℕ) (ps : List ℕ) (t : Tree)
    (indent : ℤ) (deep : Tree) (kids : Forest) (t' : Tree) (rest : Forest) where
  abbrev u : Tree
  u = opened ascending shown p t

  abbrev pub closed : Tree
  closed = close_child level indent t.node_counter t.node_index p deep

  module _ (apart : Distinct (p ∷ (ps ++ t.processes))) (under : parent ≡ get_parent_pid (t.heap p))
      (visible : (t.heap p).show ≡ true)
      (g : Grown t.processes
        (t.heap p).pid
        (level + 1 + 1)
        ascending
        (if shown then (t.heap p).show_children else false)
        u
        kids
        deep)
      (g' : Grown (ps ++ deep.processes) parent (level + 1) ascending shown closed rest t') where
    tail_apart : (q : ℕ) → occurs q (ps ++ t.processes) ≤ 1
    tail_apart q = omega (arith, apart q)

    -- How often a process stands in the two forests and in what stays.
    spread :
        (q : ℕ)
        → occurs q (preorder kids) + occurs q (preorder rest) + occurs q t'.processes
          ≡ occurs q (ps ++ t.processes)
    spread q = omega (
      arith,
      g.same (λ x. x == q),
      g'.same (λ x. x == q),
      count-append (λ x. x == q) ps t.processes,
      count-append (λ x. x == q) ps deep.processes,
    )

    away : occurs p (preorder kids) + occurs p (preorder rest) ≡ 0
    away = omega (arith, apart p, occurs-here p (ps ++ t.processes), spread p)

    node-same :
        (q : ℕ → Bool)
        → count q (p ∷ (ps ++ t.processes))
          ≡ count q (p ∷ (preorder kids ++ preorder rest)) + count q t'.processes
    node-same q = omega (
      arith,
      g.same q,
      g'.same q,
      count-append q ps t.processes,
      count-append q ps deep.processes,
      count-append q (preorder kids) (preorder rest),
    )

    node-entered :
        (q : ℕ × ℕ → Bool)
        → count q t'.display_tree_set
          ≡ count q (entries t.node_index (preorder (node p kids rest)))
            + count q t.display_tree_set
    unfolding open_child close_child
    node-entered q =
        let at =
          later (deep.node_index) (suc t.node_index + size kids) (omega (arith, g.indexed)) in
        omega (
          arith,
          g.entered q,
          g'.entered q,
          at,
          inner (u.node_index) (suc t.node_index) (omega arith),
          entries-append q (suc t.node_index) (preorder kids) (preorder rest),
        )
      where
        later :
            (m n : ℕ)
            → m ≡ n
            → count q (entries m (preorder rest)) ≡ count q (entries n (preorder rest))
        later m n e = ap (λ k. count q (entries k (preorder rest))) e

        inner :
            (m n : ℕ)
            → m ≡ n
            → count q (entries m (preorder kids)) ≡ count q (entries n (preorder kids))
        inner m n e = ap (λ k. count q (entries k (preorder kids))) e

    in_node : List ℕ
    in_node = preorder (node p kids rest)

    closed-other : (q : ℕ) → q ≢ p → closed.heap q ≡ deep.heap q
    unfolding close_child
    closed-other q ne = write-other deep.heap p q _ ne

    -- Before the loop goes on, and after: a process outside of the first child and its descendants.
    before : (q : ℕ) → q ≢ p → occurs q (preorder kids) ≡ 0 → closed.heap q ≡ t.heap q
    before =
        round-other level t.node_counter t.node_index indent ascending shown p t deep kids g.frame

    node-frame : (q : ℕ) → occurs q (preorder (node p kids rest)) ≡ 0 → t'.heap q ≡ t.heap q
    node-frame q out =
        let both = count-append (λ x. x == q) (preorder kids) (preorder rest) in
        g'.frame q (omega (arith, both, out))
        ∙ before q
            (λ e.
              let c = occurs-here q (preorder kids ++ preorder rest) in
              let d = ap (λ x. occurs q (x ∷ (preorder kids ++ preorder rest))) e in
              omega (arith, c, d, out))
            (omega (arith, both, out))

    kids-Drawn :
        Drawn t.heap t'.heap
          (t.heap p).pid
          (level + 1 + 1)
          (if shown then (t.heap p).show_children else false)
          (t.node_counter + 1)
          (t.node_index + 1)
          kids
    unfolding open_child
    kids-Drawn =
        Drawn-frame u.heap deep.heap t.heap t'.heap _ _ _ _ _ kids
          (λ q i. sym (opened-other ascending shown p t q (ne q i)))
          (λ q i. g'.frame q (omega (arith, spread q, tail_apart q, i)) ∙ closed-other q (ne q i))
          g.drawn
      where
        ne : (q : ℕ) → 1 ≤ occurs q (preorder kids) → q ≢ p
        ne q i = occurs-ne p q (preorder kids) (omega (arith, away)) i

    rest-Drawn :
        Drawn t.heap t'.heap parent
          (level + 1)
          shown
          (t.node_counter + 2 * size kids + 2)
          (t.node_index + size kids + 1)
          rest
    unfolding open_child close_child
    rest-Drawn =
        Drawn-frame closed.heap t'.heap t.heap t'.heap _ _ _ _ _ rest
          (λ q i. sym (before q (ne q i) (omega (arith, spread q, tail_apart q, i)))) (λ q i. refl)
          (Drawn-at _ _ _ _ _ closed.node_counter closed.node_index _ _ rest
            (omega (arith, g.counted)) (omega (arith, g.indexed)) g'.drawn)
      where
        ne : (q : ℕ) → 1 ≤ occurs q (preorder rest) → q ≢ p
        ne q i = occurs-ne p q (preorder rest) (omega (arith, away)) i

    final : t'.heap p ≡ closed.heap p
    final = g'.frame p (omega (arith, away))

    node-Placed :
        Placed
          (t.heap p)
          (t'.heap p)
          parent
          (level + 1)
          shown
          t.node_counter
          (size kids)
          t.node_index
    unfolding open_child close_child
    node-Placed = record {
      under = sym under;
      showing =
          ap (λ (x : Process). x.show) (final ∙ write-same deep.heap p _)
          ∙ ap (λ (x : Process). x.show) (g.frame p (omega (arith, away)))
          ∙ opened-shows ascending shown p t;
      tree_depth = ap (λ (x : Process). x.tree_depth) (final ∙ write-same deep.heap p _);
      tree_left = ap (λ (x : Process). x.tree_left) (final ∙ write-same deep.heap p _);
      tree_right =
          ap (λ (x : Process). x.tree_right) (final ∙ write-same deep.heap p _)
          ∙ omega (arith, g.counted);
      tree_index = ap (λ (x : Process). x.tree_index) (final ∙ write-same deep.heap p _);
    }

    -- A process that stays at the end is not touched.
    stays-ne : (q : ℕ) → 1 ≤ occurs q t'.processes → q ≢ p
    stays-ne q here e =
        let c = ap (λ x. occurs x t'.processes) e in
        omega (arith, c, here, apart p, occurs-here p (ps ++ t.processes), spread p)

    left_alone :
        (q : ℕ)
        → 1 ≤ occurs q t'.processes
        → (1 ≤ occurs q t'.processes) × (t.heap q ≡ closed.heap q)
    left_alone q here =
        (here, sym (before q (stays-ne q here) (omega (arith, here, spread q, tail_apart q))))

    from_below : (pid : ℕ) → Childless u.heap deep.processes pid → Childless t.heap t'.processes pid
    unfolding close_child
    from_below pid = Childless-frame u.heap t.heap deep.processes t'.processes pid (λ q here. (
      omega (arith, here, count-Sub (λ x. x == q) g'.remains),
      sym (opened-other ascending shown p t q (stays-ne q here)),
    ))

    -- Nothing that stays belongs below the first process, its descendants or the others.
    node_complete :
        (q : ℕ)
        → 1 ≤ occurs q (preorder (node p kids rest))
        → Childless t.heap t'.processes (t.heap q).pid
    node_complete q here = elim (Bool-cases (p == q)) [
      | inl first ↦
          let e : p ≡ q = ground (arith, first) in
          subst (λ x. Childless t.heap t'.processes (t.heap x).pid) e
            (from_below (t.heap p).pid g.childless)
      | inr other ↦ elim (Bool-cases (leb 1 (occurs q (preorder kids)))) [
        | inl below ↦
            let i : 1 ≤ occurs q (preorder kids) = ground (arith, below) in
            let ne : q ≢ p = λ e. ground (arith, other, e) in
            subst (λ (x : Process). Childless t.heap t'.processes x.pid)
              (opened-other ascending shown p t q ne) (from_below (u.heap q).pid (g.complete q i))
        | inr behind ↦
            let ne : q ≢ p = λ e. ground (arith, other, e) in
            let out : occurs q (preorder kids) ≡ 0 = ground (arith, behind) in
            let both = count-append (λ x. x == q) (preorder kids) (preorder rest) in
            let i : 1 ≤ occurs q (preorder rest) = ground (arith, here, other, both, out) in
            subst (λ (x : Process). Childless t.heap t'.processes x.pid) (before q ne out)
              (Childless-frame closed.heap t.heap _ _ (closed.heap q).pid left_alone
                (g'.complete q i))
      ]
    ]

    pub node-Grown :
        Grown (p ∷ (ps ++ t.processes)) parent (level + 1) ascending shown t (node p kids rest) t'
    unfolding open_child close_child place
    node-Grown = record {
      same = node-same;
      listed =
          g'.listed
          ∙ ap (place ascending (preorder rest)) g.listed
          ∙ sym (place-append ascending (preorder kids) (preorder rest) _);
      entered = node-entered;
      counted = omega (arith, g.counted, g'.counted, length-append (preorder kids) (preorder rest));
      indexed = omega (arith, g.indexed, g'.indexed, length-append (preorder kids) (preorder rest));
      drawn = (visible, node-Placed, kids-Drawn, rest-Drawn);
      frame = node-frame;
      remains = Sub-trans g'.remains g.remains;
      childless = Childless-frame closed.heap t.heap _ _ parent left_alone g'.childless;
      complete = node_complete;
    }

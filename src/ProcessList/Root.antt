-- ===== src/ProcessList/Root.antt =====
-- One root and the branch below it, put in front of the roots that follow.
use htop.Prelude.{
  ℕ, suc, ◌+◌, ◌*◌, ◌≤◌, ◌<◌, ◌≡◌, ◌≢◌, refl, sym, ap, subst, ◌∙◌, Bool, true, false, some, List,
  [], ◌∷◌, ◌++◌, arith, length, length-append, leb, ◌==◌, if◌then◌else◌, Bool-cases, inl, inr,
}
use htop.Prelude.Int.{pos}
use htop.Prelude.Count.{count, to_nat, count-append}
use htop.Process.{Process, get_parent_pid}
use htop.ProcessList.{Tree}
use htop.ProcessList.Forest.{
  Forest, node, preorder, size, occurs, Distinct, entries, Placed, Drawn, Grown, entries-append,
  Drawn-frame,
}
use htop.ProcessList.Opened.{occurs-ne, occurs-here, write-other, write-same}
use htop.ProcessList.Branch.{build_tree_branch-Grown}
use htop.ProcessList.Build.{open_root, close_root, build_root}
use htop.ProcessList.Roots.{Rooted, Built, Orphan, roots, occurs-roots, count-place, Rooted-frame}

module _ (ascending : Bool) (p : ℕ) (t : Tree) where
  root_here : (open_root p t).heap p ≡ record (t.heap p) {
    indent = pos 0;
    tree_depth = 0;
    tree_left = t.node_counter;
    tree_index = t.node_index;
  }
  unfolding open_root
  root_here = write-same t.heap p _

  root_other : (q : ℕ) → q ≢ p → (open_root p t).heap q ≡ t.heap q
  unfolding open_root
  root_other q ne = write-other t.heap p q _ ne

  root_list : (open_root p t).processes ≡ t.processes
  unfolding open_root
  root_list = refl

  -- The flag of the recursive call.
  abbrev pub shown : Bool
  shown = if (t.heap p).show then (t.heap p).show_children else false

  abbrev pub Below : Tree → Forest → Type 0
  Below deep kids = Grown t.processes (t.heap p).pid 1 ascending shown (open_root p t) kids deep

  root_pid : ((open_root p t).heap p).pid ≡ (t.heap p).pid
  root_pid = ap (λ (x : Process). x.pid) root_here

  root_children : ((open_root p t).heap p).show_children ≡ (t.heap p).show_children
  root_children = ap (λ (x : Process). x.show_children) root_here

  small : (u : Tree) → u.processes ≡ t.processes → length u.processes < length t.processes + 1
  small u e = let same = ap (λ (ps : List ℕ). length ps) e in omega (arith, same)

  in_terms :
      (u : Tree)
      → u.processes ≡ t.processes
      → (u.heap p).pid ≡ (t.heap p).pid
      → (u.heap p).show_children ≡ (t.heap p).show_children
      → (deep : Tree) (kids : Forest)
      → Grown u.processes
          (u.heap p).pid
          1
          ascending
          (if (t.heap p).show then (u.heap p).show_children else false)
          u
          kids
          deep
      → Grown t.processes (t.heap p).pid 1 ascending shown u kids deep
  in_terms u e1 e2 e3 deep kids g =
      subst
        (λ b.
          Grown t.processes (t.heap p).pid 1 ascending (if (t.heap p).show then b else false) u kids
            deep)
        e3
        (subst
          (λ n.
            Grown t.processes n 1 ascending
              (if (t.heap p).show then (u.heap p).show_children else false) u kids deep)
          e2
          (subst
            (λ ps.
              Grown ps (u.heap p).pid 1 ascending
                (if (t.heap p).show then (u.heap p).show_children else false) u kids deep)
            e1 g))

  pub root_branch :
      Distinct (p ∷ t.processes)
      → (deep : Tree) × (kids : Forest) × (build_root ascending p t ≡ some (close_root p deep))
        × Below deep kids
  unfolding build_root
  root_branch apart =
      let u = open_root p t in
      let show = if (t.heap p).show then (u.heap p).show_children else false in
      let (deep, kids, run, g) =
        build_tree_branch-Grown (length t.processes + 1) (u.heap p).pid 0 0 ascending show u
          (small u root_list) (subst Distinct (sym root_list) (λ q. omega (arith, apart q))) in
      (
        deep,
        kids,
        rw (build_root, run) refl,
        in_terms u root_list root_pid root_children deep kids g,
      )

  module _ (apart : Distinct (p ∷ t.processes)) (deep : Tree) (kids : Forest)
      (g : Below deep kids) where
    abbrev pub c : Tree
    c = close_root p deep

    pub away : occurs p (preorder kids) ≡ 0
    away = omega (arith, apart p, occurs-here p t.processes, g.same (λ x. x == p))

    deep_here : deep.heap p ≡ (open_root p t).heap p
    deep_here = g.frame p away

    closed_here : c.heap p ≡ record (deep.heap p) { tree_right = deep.node_counter }
    unfolding close_root
    closed_here = write-same deep.heap p _

    closed_other : (q : ℕ) → q ≢ p → c.heap q ≡ deep.heap q
    unfolding close_root
    closed_other q ne = write-other deep.heap p q _ ne

    root_entered :
        (q : ℕ × ℕ → Bool)
        → count q c.display_tree_set
          ≡ to_nat (q (t.node_index, p))
            + count q (entries (t.node_index + 1) (preorder kids))
            + count q t.display_tree_set
    unfolding close_root open_root
    root_entered q =
        let shows : (deep.heap p).show ≡ (t.heap p).show =
          ap (λ (x : Process). x.show) (deep_here ∙ root_here) in
        let at : (deep.heap p).tree_index ≡ t.node_index =
          ap (λ (x : Process). x.tree_index) (deep_here ∙ root_here) in
        let one = ap (λ n. to_nat (q (n, p))) at in
        elim (Bool-cases (t.heap p).show) [
          | inl on ↦ rw (shows, on) (omega (arith, rw on at (g.entered q)))
          | inr off ↦ rw (shows, off) (omega (arith, one, rw off at (g.entered q)))
        ]

    root-Placed :
        (new : Process)
        → new ≡ c.heap p
        → Placed
            (t.heap p)
            new
            (get_parent_pid (t.heap p))
            0
            true
            t.node_counter
            (size kids)
            t.node_index
    unfolding open_root
    root-Placed new e =
        let was : new ≡ record (deep.heap p) { tree_right = deep.node_counter } = e ∙ closed_here in
        let first = deep_here ∙ root_here in
        record {
          under = refl;
          showing = ap (λ (x : Process). x.show) was ∙ ap (λ (x : Process). x.show) first;
          tree_depth =
              ap (λ (x : Process). x.tree_depth) was ∙ ap (λ (x : Process). x.tree_depth) first;
          tree_left =
              ap (λ (x : Process). x.tree_left) was ∙ ap (λ (x : Process). x.tree_left) first;
          tree_right = ap (λ (x : Process). x.tree_right) was ∙ omega (arith, g.counted);
          tree_index =
              ap (λ (x : Process). x.tree_index) was ∙ ap (λ (x : Process). x.tree_index) first;
        }

    pub before : (q : ℕ) → q ≢ p → occurs q (preorder kids) ≡ 0 → c.heap q ≡ t.heap q
    before q ne out = closed_other q ne ∙ g.frame q out ∙ root_other q ne

    module _ (rest : Forest) (t' : Tree) (b : Built c rest t') where
      spread :
          (q : ℕ → Bool) → count q t.processes ≡ count q (preorder kids) + count q (preorder rest)
      unfolding close_root
      spread q = omega (arith, g.same q, b.same q)

      away_rest : occurs p (preorder rest) ≡ 0
      away_rest = omega (arith, apart p, occurs-here p t.processes, spread (λ x. x == p))

      -- No process is in both forests.
      one_place : (q : ℕ) → occurs q (preorder kids) + occurs q (preorder rest) ≤ 1
      one_place q = omega (arith, apart q, spread (λ x. x == q))

      root-frame : (q : ℕ) → occurs q (preorder (node p kids rest)) ≡ 0 → t'.heap q ≡ t.heap q
      root-frame q out =
          let both = count-append (λ x. x == q) (preorder kids) (preorder rest) in
          let here = occurs-here p (preorder kids ++ preorder rest) in
          let ne : q ≢ p = λ e.
            let same = ap (λ x. occurs x (preorder (node p kids rest))) e in
            omega (arith, here, same, out) in
          b.frame q (omega (arith, both, out)) ∙ before q ne (omega (arith, both, out))

      kids-Drawn :
          Drawn t.heap t'.heap (t.heap p).pid 1 shown (t.node_counter + 1) (t.node_index + 1) kids
      unfolding open_root
      kids-Drawn =
          Drawn-frame (open_root p t).heap deep.heap t.heap t'.heap _ _ _ _ _ kids
            (λ q i. sym (root_other q (ne q i)))
            (λ q i. b.frame q (omega (arith, one_place q, i)) ∙ closed_other q (ne q i)) g.drawn
        where
          ne : (q : ℕ) → 1 ≤ occurs q (preorder kids) → q ≢ p
          ne q i = occurs-ne p q (preorder kids) away i

      rest-Rooted :
          Rooted t.heap t'.heap
            (t.node_counter + 2 * size kids + 2)
            (t.node_index + size kids + 1)
            rest
      unfolding open_root close_root
      rest-Rooted =
          Rooted-frame c.heap t'.heap t.heap t'.heap _ _ rest
            (λ q i. sym (before q (ne q i) (omega (arith, one_place q, i)))) (λ q i. refl)
            (subst (λ n. Rooted c.heap t'.heap (t.node_counter + 2 * size kids + 2) n rest) at_index
              (subst (λ n. Rooted c.heap t'.heap n c.node_index rest) at_counter b.rooted))
        where
          ne : (q : ℕ) → 1 ≤ occurs q (preorder rest) → q ≢ p
          ne q i = occurs-ne p q (preorder rest) away_rest i

          at_counter : c.node_counter ≡ t.node_counter + 2 * size kids + 2
          at_counter = omega (arith, g.counted)

          at_index : c.node_index ≡ t.node_index + size kids + 1
          at_index = omega (arith, g.indexed)

      later_entries :
          (q : ℕ × ℕ → Bool)
          → count q (entries t.node_index (preorder (node p kids rest)))
            ≡ to_nat (q (t.node_index, p))
              + count q (entries (t.node_index + 1) (preorder kids))
              + count q (entries c.node_index (preorder rest))
      unfolding open_root close_root
      later_entries q =
          let e1 = here (suc t.node_index) (t.node_index + 1) (omega arith) (preorder kids) in
          let e2 =
            here (suc t.node_index + size kids) deep.node_index (omega (arith, g.indexed))
              (preorder rest) in
          omega (arith, entries-append q (suc t.node_index) (preorder kids) (preorder rest), e1, e2)
        where
          here : (m n : ℕ) → m ≡ n → (ps : List ℕ) → count q (entries m ps) ≡ count q (entries n ps)
          here m n e ps = ap (λ k. count q (entries k ps)) e

      -- A root that follows has no parent below this one, nor among the processes that are left.
      later-Orphan :
          (pool : List ℕ)
          → ((q : ℕ → Bool) → count q pool ≡ to_nat (q p) + count q t.processes)
          → (r : ℕ) → 1 ≤ occurs r (roots rest)
          → Orphan t.heap pool r
      unfolding close_root
      later-Orphan pool e r root q here shown nonzero other up =
          let of_rest : 1 ≤ occurs r (preorder rest) = omega (arith, root, occurs-roots r rest) in
          let out : occurs r (preorder kids) ≡ 0 = omega (arith, one_place r, of_rest) in
          let ne : r ≢ p = occurs-ne p r (preorder rest) away_rest of_rest in
          let left : 1 ≤ occurs r deep.processes = omega (arith, b.same (λ x. x == r), of_rest) in
          let opened : (open_root p t).heap r ≡ t.heap r = root_other r ne in
          let visible : ((open_root p t).heap r).show ≡ true =
            ap (λ (x : Process). x.show) opened ∙ shown in
          let same : c.heap r ≡ t.heap r = before r ne out in
          elim (Bool-cases (p == q)) [
            | inl this ↦
                let e' : p ≡ q = ground (arith, this) in
                let up' : (t.heap p).pid ≡ get_parent_pid (t.heap r) =
                  ap (λ x. (t.heap x).pid) e' ∙ up in
                g.childless r left visible (λ z. nonzero (sym up' ∙ z))
                  (ap get_parent_pid opened ∙ sym up')
            | inr that ↦
                let ne' : q ≢ p = λ z. ground (arith, that, z) in
                elim (Bool-cases (leb 1 (occurs q (preorder kids)))) [
                  | inl below ↦
                      let upper : ((open_root p t).heap q).pid ≡ get_parent_pid (t.heap r) =
                        ap (λ (x : Process). x.pid) (root_other q ne') ∙ up in
                      g.complete q (ground (arith, below)) r left visible
                        (λ z. nonzero (sym upper ∙ z)) (ap get_parent_pid opened ∙ sym upper)
                  | inr behind ↦
                      let none_below : occurs q (preorder kids) ≡ 0 = ground (arith, behind) in
                      let same' : c.heap q ≡ t.heap q = before q ne' none_below in
                      let there : 1 ≤ occurs q deep.processes =
                        ground
                          (arith, here, e (λ x. x == q), that, g.same (λ x. x == q), none_below) in
                      b.orphans r root q there (ap (λ (x : Process). x.show) same ∙ shown)
                        (λ z. nonzero (sym (ap get_parent_pid same) ∙ z))
                        (λ z.
                          other
                            (sym (ap (λ (x : Process). x.pid) same) ∙ z ∙ ap get_parent_pid same))
                        (ap (λ (x : Process). x.pid) same' ∙ up ∙ sym (ap get_parent_pid same))
                ]
          ]

      root-orphans :
          (pool : List ℕ)
          → ((q : ℕ → Bool) → count q pool ≡ to_nat (q p) + count q t.processes)
          → Orphan t.heap pool p
          → (r : ℕ) → 1 ≤ occurs r (roots (node p kids rest))
          → Orphan t.heap pool r
      root-orphans pool e first r root = elim (Bool-cases (p == r)) [
        | inl this ↦ subst (Orphan t.heap pool) (ground (arith, this)) first
        | inr that ↦ later-Orphan pool e r (ground (arith, root, that))
      ]

      pub root-Built :
          (pool : List ℕ)
          → ((q : ℕ → Bool) → count q pool ≡ to_nat (q p) + count q t.processes)
          → Orphan t.heap pool p
          → Built (record t { processes = pool }) (node p kids rest) t'
      unfolding open_root close_root
      root-Built pool e first = record {
        emptied = b.emptied;
        same = λ q. omega (arith, e q, spread q, count-append q (preorder kids) (preorder rest));
        listed = λ q.
            let placed = ap (count q) g.listed in
            omega (
              arith,
              b.listed q,
              placed,
              count-place q ascending (preorder kids) (t.processes2 ++ p ∷ []),
              count-append q t.processes2 (p ∷ []),
              count-append q (preorder kids) (preorder rest),
            );
        entered = λ q. omega (arith, b.entered q, root_entered q, later_entries q);
        counted =
            omega (arith, g.counted, b.counted, length-append (preorder kids) (preorder rest));
        indexed =
            omega (arith, g.indexed, b.indexed, length-append (preorder kids) (preorder rest));
        rooted = (root-Placed (t'.heap p) (b.frame p away_rest), kids-Drawn, rest-Rooted);
        orphans = root-orphans pool e first;
        frame = root-frame;
      }

-- ===== src/ProcessList/Below.antt =====
-- Every process of a built tree is a root or stands directly below a process with its parent's pid.
use htop.Prelude.{
  ℕ, ◌+◌, ◌*◌, ◌≤◌, ◌≡◌, refl, sym, ap, ◌∙◌, Bool, false, leb, ◌==◌, ◌⊎◌, inl, inr, arith,
  if◌then◌else◌, Bool-cases,
}
use htop.Prelude.Count.{count-append}
use htop.Process.{Process, get_parent_pid}
use htop.ProcessList.Forest.{Forest, tip, node, preorder, size, occurs, Drawn}
use htop.ProcessList.Roots.{Rooted, roots}

-- `q` stands directly below `p` in the forest.
abbrev pub Child : Forest → ℕ → ℕ → Type 0
Child tip p q = ⊥
Child (node r kids rest) p q =
    ((r ≡ p) × (1 ≤ occurs q (roots kids))) ⊎ Child kids p q ⊎ Child rest p q

-- Where a process of the forest `node r kids rest` is.
split_node :
    (r : ℕ) (kids rest : Forest) (q : ℕ)
    → 1 ≤ occurs q (preorder (node r kids rest))
    → (r ≡ q) ⊎ (1 ≤ occurs q (preorder kids)) ⊎ (1 ≤ occurs q (preorder rest))
split_node r kids rest q here = elim (Bool-cases (r == q)) [
  | inl this ↦ inl (ground (arith, this))
  | inr that ↦
      let both = count-append (λ x. x == q) (preorder kids) (preorder rest) in
      elim (Bool-cases (leb 1 (occurs q (preorder kids)))) [
        | inl below ↦ inr (inl (ground (arith, below)))
        | inr behind ↦ inr (inr (ground (arith, here, that, behind, both)))
      ]
]

root_first : (r : ℕ) (kids rest : Forest) (q : ℕ) → r ≡ q → 1 ≤ occurs q (roots (node r kids rest))
root_first r kids rest q e = ground (arith, e)

root_later :
    (r : ℕ) (kids rest : Forest) (q : ℕ)
    → 1 ≤ occurs q (roots rest)
    → 1 ≤ occurs q (roots (node r kids rest))
root_later r kids rest q h = ground (arith, h)

Drawn-Child :
    (old new : ℕ → Process) (parent depth : ℕ) (shown : Bool) (left index : ℕ) (f : Forest)
    → Drawn old new parent depth shown left index f
    → (q : ℕ) → 1 ≤ occurs q (preorder f)
    → ((1 ≤ occurs q (roots f)) × (get_parent_pid (old q) ≡ parent))
      ⊎ ((p : ℕ) × Child f p q × (get_parent_pid (old q) ≡ (old p).pid))
Drawn-Child old new parent depth shown left index tip d q here = absurd (omega arith)
Drawn-Child old new parent depth shown left index (node r kids rest)
      (visible, placed, below, behind) q here =
    let in_kids =
      Drawn-Child old new (old r).pid (depth + 1) (if shown then (old r).show_children else false)
        (left + 1) (index + 1) kids below q in
    let in_rest =
      Drawn-Child old new parent depth shown (left + 2 * size kids + 2) (index + size kids + 1) rest
        behind q in
    elim (split_node r kids rest q here) [
      | inl this ↦ inl (
        root_first r kids rest q this,
        sym (ap (λ x. get_parent_pid (old x)) this) ∙ placed.under,
      )
      | inr (inl i) ↦ elim (in_kids i) [
        | inl (root, e) ↦ inr (r, inl (refl, root), e)
        | inr (p, child, e) ↦ inr (p, inr (inl child), e)
      ]
      | inr (inr i) ↦ elim (in_rest i) [
        | inl (root, e) ↦ inl (root_later r kids rest q root, e)
        | inr (p, child, e) ↦ inr (p, inr (inr child), e)
      ]
    ]

pub Rooted-Child :
    (old new : ℕ → Process) (left index : ℕ) (f : Forest)
    → Rooted old new left index f
    → (q : ℕ) → 1 ≤ occurs q (preorder f)
    → (1 ≤ occurs q (roots f)) ⊎ ((p : ℕ) × Child f p q × (get_parent_pid (old q) ≡ (old p).pid))
Rooted-Child old new left index tip d q here = absurd (omega arith)
Rooted-Child old new left index (node r kids rest) (placed, below, behind) q here =
    let in_kids =
      Drawn-Child old new (old r).pid 1 (if (old r).show then (old r).show_children else false)
        (left + 1) (index + 1) kids below q in
    let in_rest =
      Rooted-Child old new (left + 2 * size kids + 2) (index + size kids + 1) rest behind q in
    elim (split_node r kids rest q here) [
      | inl this ↦ inl (root_first r kids rest q this)
      | inr (inl i) ↦ elim (in_kids i) [
        | inl (root, e) ↦ inr (r, inl (refl, root), e)
        | inr (p, child, e) ↦ inr (p, inr (inl child), e)
      ]
      | inr (inr i) ↦ elim (in_rest i) [
        | inl root ↦ inl (root_later r kids rest q root)
        | inr (p, child, e) ↦ inr (p, inr (inr child), e)
      ]
    ]

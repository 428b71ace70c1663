-- ===== src/IncSet/Weak.antt =====
-- `updateWeakPanel` against the list of the lines that pass the test.
use htop.Prelude.{
  ℕ, ◌+◌, ◌≡◌, refl, ap, subst, inl, inr, Bool, true, false, Option, none, some, List, [], ◌∷◌,
  ◌++◌, map, if◌then◌else◌, Bool-cases,
}
use mathlib.Core.List.{append-nil, append_assoc}
use htop.Prelude.Int.{pos}
use htop.Vector.{Vector}
use htop.Vector.Contents.{Holds}
use htop.Vector.Refine.{add-Holds}
use htop.Vector.Access.{prune-Holds}
use htop.Panel.{Panel, set_selected, get_selected}
use htop.Panel
use htop.IncSet.{IncSet, weak_loop, update_weak_panel}

-- The items that pass the test, in order.
abbrev pub kept {ℓ} : {A : Type ℓ} → (A → Bool) → List A → List A
kept keep [] = []
kept keep (x ∷ xs) = if keep x then x ∷ kept keep xs else kept keep xs

kept-if {ℓ} :
    {A : Type ℓ} (b : Bool) (f : A → Bool) (xs : List A)
    → kept (λ x. if b then f x else true) xs ≡ (if b then kept f xs else xs)
kept-if true f xs = refl
kept-if false f [] = refl
kept-if false f (x ∷ xs) = ap (λ l. x ∷ l) (kept-if false f xs)

module _ {ℓ} {A : Type ℓ} (contains : List ℕ → List ℕ → Bool) (text : A → List ℕ)
    (same : A → A → Bool) where
  -- A line added, selected or not.
  added-Holds :
      (chosen : Bool) (n : ℕ) (ys : List A) (x : A) (p : Panel A)
      → Holds ys p.items
      → let q = Panel.add p x in
        Holds (ys ++ x ∷ []) (if chosen then set_selected none q (pos n) else q).items
  unfolding set_selected Panel.add
  added-Holds true n ys x p h = (add-Holds x h).0
  added-Holds false n ys x p h = (add-Holds x h).0

  weak_loop-Holds :
      (keep : A → Bool) (selected : Option A) (n : ℕ) (xs ys : List A) (p : Panel A)
      → Holds ys p.items
      → Holds
          (ys ++ kept keep xs)
          (weak_loop contains text same none keep selected n (map some xs) p).items
  unfolding weak_loop
  weak_loop-Holds keep selected n [] ys p h = rw (append-nil ys) h
  weak_loop-Holds keep selected n (x ∷ xs) ys p h = elim (Bool-cases (keep x)) [
    | inl shown ↦
        let chosen : Bool = elim selected [ none ↦ false | some o ↦ same o x ] in
        let q : Panel A =
          if chosen then set_selected none (Panel.add p x) (pos n) else Panel.add p x in
        let rest =
          weak_loop-Holds keep selected (n + 1) xs (ys ++ x ∷ []) q
            (added-Holds chosen n ys x p h) in
        rw (weak_loop, shown)
          (subst
            (λ zs.
              Holds zs
                (weak_loop contains text same none keep selected (n + 1) (map some xs) q).items)
            (append_assoc ys (x ∷ []) (kept keep xs)) rest)
    | inr hidden ↦ rw (weak_loop, hidden) (weak_loop-Holds keep selected n xs ys p h)
  ]

  -- For well-formed vectors and a panel without an event handler, `updateWeakPanel` leaves in the
  -- panel, while filtering, exactly the lines that contain the filter's text, else all lines, in
  -- order.
  pub update_weak_panel-Holds :
      (s : IncSet) (p : Panel A) (lines : Vector A) (xs ys : List A)
      → Holds ys p.items
      → Holds xs lines
      → Holds
          (if s.filtering then kept (λ x. contains (text x) s.filter.buffer) xs else xs)
          (update_weak_panel contains text same none s p lines).items
  unfolding update_weak_panel Panel.prune
  update_weak_panel-Holds s p lines xs ys hp h =
      let keep : A → Bool = λ x. if s.filtering then contains (text x) s.filter.buffer else true in
      let all =
        weak_loop-Holds keep (get_selected p) 0 xs [] (Panel.prune p).0 (prune-Holds hp).0 in
      rw (h.held) (
        subst
          (λ zs.
            Holds zs
              (weak_loop contains text same none keep (get_selected p) 0 (map some xs)
                (Panel.prune p).0).items)
          (kept-if s.filtering (λ x. contains (text x) s.filter.buffer) xs) all)

-- ===== src/ProcessList/Panel/Shown.antt =====
-- The main panel holds the wanted processes, and its selection stays on the followed one.
use htop.Prelude.{
  ℕ, zero, suc, ◌+◌, ◌≤◌, ◌≡◌, ◌≢◌, ◌==◌, refl, sym, ap, subst, ◌∙◌, Bool, true, false, Option,
  none, some, List, [], ◌∷◌, ◌++◌, arith, length, length-append, get_elem?, Bool-cases, inl, inr,
}
use mathlib.Core.List.{append-nil, append_assoc}
use htop.Prelude.Int.{ℤ, pos}
use htop.Vector.{add, set_item}
use htop.Vector.Contents.{Holds}
use htop.Vector.Refine.{add-Holds, length-Holds}
use htop.Vector.Access.{prune-Holds}
use htop.Panel.{Panel, set_selected}
use htop.Panel
use htop.Prelude.Count.{count-append}
use htop.ProcessList.Forest.{occurs}
use htop.ProcessList.Panel.Wanted.{Picked, Wanted, IsTarget, kept-Picked, followed-IsTarget}
use htop.IncSet.Weak.{kept}
use htop.Process.{Process}
use htop.ProcessList.Scan.{follows}
use htop.ProcessList.Panel.{Shows, is_some, is_wanted, followed, fill_loop, finish, rebuild_panel}

get_elem?-append :
    (xs ys : List ℕ) (i x : ℕ) → get_elem? xs i ≡ some x → get_elem? (xs ++ ys) i ≡ some x
get_elem?-append [] ys i x h = cc
get_elem?-append (z ∷ xs) ys zero x h = h
get_elem?-append (z ∷ xs) ys (suc i) x h = get_elem?-append xs ys i x h

get_elem?-end : (xs : List ℕ) (x : ℕ) → get_elem? (xs ++ x ∷ []) (length xs) ≡ some x
get_elem?-end [] x = refl
get_elem?-end (z ∷ xs) x = get_elem?-end xs x

get_elem?-occurs : (xs : List ℕ) (i x : ℕ) → get_elem? xs i ≡ some x → 1 ≤ occurs x xs
get_elem?-occurs [] i x h = cc
get_elem?-occurs (z ∷ xs) zero x h =
    let e : z ≡ x = ap (λ o. elim o as (λ _. ℕ) [ none ↦ 0 | some y ↦ y ]) h in ground (arith, e)
get_elem?-occurs (z ∷ xs) (suc i) x h = let ih = get_elem?-occurs xs i x h in ground (arith, ih)

follows_it : (n m : ℕ) → some n ≡ some m → follows (some n) m ≡ true
follows_it n m e =
    let same : n ≡ m = ap (λ o. elim o as (λ _. ℕ) [ none ↦ 0 | some y ↦ y ]) e in
    ground (arith, same)

-- The vector with a process put behind the others.
put-Holds :
    (q : Panel ℕ) (xs : List ℕ) (idx p : ℕ)
    → Holds xs q.items
    → idx ≡ length xs
    → Holds (xs ++ p ∷ []) (Panel.set q idx p).0.items
unfolding Panel.set add
put-Holds q xs idx p h e =
    let at : idx ≡ q.items.items = omega (arith, e, length-Holds h) in
    subst (λ n. Holds (xs ++ p ∷ []) (set_item q.items n p).0) (sym at) (add-Holds p h).0

set-selected : (q : Panel ℕ) (idx p : ℕ) → (Panel.set q idx p).0.selected ≡ q.selected
unfolding Panel.set
set-selected q idx p = refl

module _ (contains_i : List ℕ → List ℕ → Bool) (s : Shows) (heap : ℕ → Process) where
  -- The selection is on the process that is followed.
  abbrev pub OnFollowed : Option ℕ → List ℕ → Panel ℕ → Type 0
  OnFollowed following xs q =
      (i : ℕ) × (x : ℕ) × (q.selected ≡ pos i)
      × (get_elem? xs i ≡ some x)
      × (follows following (heap x).pid ≡ true)

  module _ (following : Option ℕ) (scroll : ℤ) where
    -- `q` holds `xs`, and the process that is followed was found where it is in `xs`, and only where
    -- the selection is on it.
    record Filled (xs : List ℕ) (r : Panel ℕ × Bool) : Type 0 where
      holds : Holds xs r.0.items
      on : r.1 ≡ true → OnFollowed following xs r.0
      seen : (x : ℕ) → 1 ≤ occurs x xs → follows following (heap x).pid ≡ true → r.1 ≡ true

    plain_Filled :
        (xs : List ℕ) (idx p : ℕ) (q : Panel ℕ) (found : Bool)
        → Filled xs (q, found)
        → idx ≡ length xs
        → follows following (heap p).pid ≡ false
        → Filled (xs ++ p ∷ []) ((Panel.set q idx p).0, found)
    plain_Filled xs idx p q found f e other = record {
      holds = put-Holds q xs idx p f.holds e;
      on = λ h.
          let (i, x, at, elem, it) = f.on h in
          (i, x, set-selected q idx p ∙ at, get_elem?-append xs (p ∷ []) i x elem, it);
      seen = λ x here it. elim (Bool-cases (p == x)) [
        | inl this ↦
            let e' : p ≡ x = ground (arith, this) in
            let it' : follows following (heap p).pid ≡ true =
              ap (λ y. follows following (heap y).pid) e' ∙ it in
            cc
        | inr that ↦
            f.seen x (ground (arith, here, that, count-append (λ y. y == x) xs (p ∷ []))) it
      ];
    }

    chosen_Filled :
        (xs : List ℕ) (idx p : ℕ) (q : Panel ℕ)
        → Holds xs q.items
        → idx ≡ length xs
        → follows following (heap p).pid ≡ true
        → Filled
            (xs ++ p ∷ [])
            (record (set_selected none (Panel.set q idx p).0 (pos idx)) { scroll_v = scroll }, true)
    unfolding set_selected
    chosen_Filled xs idx p q h e it =
        let held = put-Holds q xs idx p h e in
        let many : (Panel.set q idx p).0.items.items ≡ idx + 1 =
          omega (arith, length-Holds held, length-append xs (p ∷ []), e) in
        record {
          holds = held;
          on = λ _. (
            idx,
            p,
            ground (arith, many),
            ap (λ n. get_elem? (xs ++ p ∷ []) n) e ∙ get_elem?-end xs p,
            it,
          );
          seen = λ x here follows_x. refl;
        }

    reassociated :
        (p : ℕ) (ps xs : List ℕ) (r : Panel ℕ × Bool)
        → Filled ((xs ++ p ∷ []) ++ kept (is_wanted contains_i s heap) ps) r
        → Filled (xs ++ p ∷ kept (is_wanted contains_i s heap) ps) r
    reassociated p ps xs r f =
        subst (λ zs. Filled zs r) (append_assoc xs (p ∷ []) (kept (is_wanted contains_i s heap) ps))
          f

    fill_loop-Filled :
        (ps xs : List ℕ) (idx : ℕ) (q : Panel ℕ) (found : Bool)
        → Filled xs (q, found)
        → idx ≡ length xs
        → Filled
            (xs ++ kept (is_wanted contains_i s heap) ps)
            (fill_loop contains_i s heap following scroll ps idx (q, found))
    unfolding fill_loop
    fill_loop-Filled [] xs idx q found f e = rw (append-nil xs) f
    fill_loop-Filled (p ∷ ps) xs idx q found f e =
        let next : idx + 1 ≡ length (xs ++ p ∷ []) = omega (arith, e, length-append xs (p ∷ [])) in
        elim (Bool-cases (is_wanted contains_i s heap p)) [
          | inr out ↦ rw (fill_loop, out) (fill_loop-Filled ps xs idx q found f e)
          | inl wanted ↦ elim (Bool-cases (follows following (heap p).pid)) [
            | inl it ↦
                rw (fill_loop, wanted, it)
                  (reassociated p ps xs _ (
                    fill_loop-Filled ps (xs ++ p ∷ []) (idx + 1)
                      (record (set_selected none (Panel.set q idx p).0 (pos idx)) {
                        scroll_v = scroll;
                      })
                      true (chosen_Filled xs idx p q f.holds e it) next))
            | inr other ↦
                rw (fill_loop, wanted, other)
                  (reassociated p ps xs _ (
                    fill_loop-Filled ps (xs ++ p ∷ []) (idx + 1) (Panel.set q idx p).0 found
                      (plain_Filled xs idx p q found f e other) next))
          ]
        ]

  -- The panel behind the call holds the wanted processes of the list. Where the process to be followed
  -- is among them it is followed and selected; else none is followed, and the colour of the selection
  -- is reset if one was to be.
  pub record Rebuilt (table : List (ℕ × ℕ)) (processes : List ℕ) (before : Option ℕ)
      (r : (Panel ℕ × Option ℕ) × Bool) : Type 0 where
    pub lines : List ℕ
    pub target : Option ℕ
    pub wanted : Picked (Wanted contains_i s heap) lines processes
    pub holds : Holds lines r.0.0.items
    pub to_follow : IsTarget contains_i s heap table before target
    pub on :
        (x : ℕ)
        → 1 ≤ occurs x lines
        → target ≡ some (heap x).pid
        → OnFollowed target lines r.0.0 × (r.0.1 ≡ target) × (r.1 ≡ false)
    pub lost :
        ((x : ℕ) → 1 ≤ occurs x lines → target ≢ some (heap x).pid)
        → (r.0.1 ≡ none) × (r.1 ≡ is_some target)

  -- What is decided behind the loop.
  record Finished (xs : List ℕ) (target : Option ℕ) (r : (Panel ℕ × Option ℕ) × Bool) : Type 0 where
    holds : Holds xs r.0.0.items
    on :
        (x : ℕ)
        → 1 ≤ occurs x xs
        → target ≡ some (heap x).pid
        → OnFollowed target xs r.0.0 × (r.0.1 ≡ target) × (r.1 ≡ false)
    lost :
        ((x : ℕ) → 1 ≤ occurs x xs → target ≢ some (heap x).pid)
        → (r.0.1 ≡ none) × (r.1 ≡ is_some target)

  finish-Finished :
      (following : Option ℕ) (curr_pos scroll curr_size : ℤ) (xs : List ℕ) (q : Panel ℕ)
      (found : Bool)
      → Filled following scroll xs (q, found)
      → Finished xs following
          (finish contains_i s heap following curr_pos scroll curr_size (q, found))
  unfolding finish set_selected
  finish-Finished none curr_pos scroll curr_size xs q found f = record {
    holds = f.holds;
    on = λ x here e. cc;
    lost = λ _. (refl, refl);
  }
  finish-Finished (some pid) curr_pos scroll curr_size xs q true f = record {
    holds = f.holds;
    on = λ x here e. (f.on refl, refl, refl);
    lost = λ out.
        let (i, x, at, elem, it) = f.on refl in
        absurd (out x (get_elem?-occurs xs i x elem) (ap some (ground (arith, it))));
  }
  finish-Finished (some pid) curr_pos scroll curr_size xs q false f = record {
    holds = f.holds;
    on = λ x here e.
        let it : follows (some pid) (heap x).pid ≡ true = follows_it pid (heap x).pid e in
        let no_way = f.seen x here it in cc;
    lost = λ _. (refl, refl);
  }

  -- For a well-formed panel, `ProcessList_rebuildPanel` leaves exactly the wanted processes in the
  -- panel, in the order of the list. The process that was followed, or for a hidden thread its main
  -- process, is selected and followed where it is wanted, and else none is followed.
  pub rebuild_panel-Rebuilt :
      (table : List (ℕ × ℕ)) (processes : List ℕ) (before : Option ℕ) (panel : Panel ℕ)
      (lines : List ℕ)
      → Holds lines panel.items
      → Rebuilt table processes before
          (rebuild_panel contains_i s heap table processes before panel)
  unfolding rebuild_panel Panel.prune
  rebuild_panel-Rebuilt table processes before panel lines h =
      let following = followed contains_i s heap table before in
      let start = (Panel.prune panel).0 in
      let (q, found) =
        fill_loop contains_i s heap following panel.scroll_v processes 0 (start, false) in
      let f =
        finish-Finished following panel.selected panel.scroll_v (Panel.size panel)
          (kept (is_wanted contains_i s heap) processes) q found
          (fill_loop-Filled following panel.scroll_v processes [] 0 start false
            (record {
              holds = (prune-Holds h).0;
              on = λ e. cc;
              seen = λ x here it. absurd (omega arith);
            })
            refl) in
      record {
        lines = kept (is_wanted contains_i s heap) processes;
        target = following;
        wanted = kept-Picked contains_i s heap processes;
        holds = f.holds;
        to_follow = followed-IsTarget contains_i s heap table before;
        on = f.on;
        lost = f.lost;
      }

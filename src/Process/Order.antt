-- ===== src/Process/Order.antt =====
-- The comparison of processes is an order, if that of the active key is one.
use htop.Prelude.{
  ℕ, ◌≡◌, ◌≢◌, sym, ap, subst, Bool, true, Option, none, some, List, [], ◌∷◌, arith, if◌then◌else◌,
  Bool-cases, inl, inr,
}
use htop.Prelude.Int.{ℤ, pos, pos_part, neg_part, leb_ℤ, eqb_ℤ}
use htop.Vector.Sort.Quick.{IsPreorder}
use htop.Process.{Process}
use htop.Process.Field.{ProcessField}
use htop.Process.{state_number, get_command_str}
use htop.Process.Compare.{
  SortSettings, spaceship, minus, compare_by_key, compare_by_class, compare, text_or, comm_text,
  exe_text, get_active_sort_key, get_active_direction,
}

-- What a comparison function promises: the sign turns when the arguments are exchanged, and "not
-- greater" is transitive. strcmp is one on strings.
pub record IsComparison {ℓ} {A : Type ℓ} (c : A → A → ℤ) : Type ℓ where
  pub flip : (a b : A) → leb_ℤ (c a b) (pos 0) ≡ leb_ℤ (pos 0) (c b a)
  pub trans :
      (a b d : A)
      → leb_ℤ (c a b) (pos 0) ≡ true
      → leb_ℤ (c b d) (pos 0) ≡ true
      → leb_ℤ (c a d) (pos 0) ≡ true

-- By a number of each value, and by a function of it.
by_number {ℓ} :
    {A : Type ℓ} (f : A → ℤ) → IsComparison (λ (a : A). λ (b : A). spaceship (f a) (f b))
by_number f = record {
  flip = λ a b. flips (f a) (f b);
  trans = λ a b d h k. chains (f a) (f b) (f d) h k;
}
  where
    flips : (x y : ℤ) → leb_ℤ (spaceship x y) (pos 0) ≡ leb_ℤ (pos 0) (spaceship y x)
    flips x y = ground arith

    chains :
        (x y z : ℤ)
        → leb_ℤ (spaceship x y) (pos 0) ≡ true
        → leb_ℤ (spaceship y z) (pos 0) ≡ true
        → leb_ℤ (spaceship x z) (pos 0) ≡ true
    chains x y z h k = ground arith

module _ {ℓ} {A : Type ℓ} where
  reversed : (c : A → A → ℤ) → IsComparison c → IsComparison (λ a b. minus (c a b))
  reversed c k = record {
    flip = λ a b. let e = k.flip a b in let f = k.flip b a in ground arith;
    trans = λ a b d h h'.
        let e = k.flip b a in
        let f = k.flip d b in
        let g = k.flip d a in let t = k.trans d b a in ground (arith, e, f, g, t);
  }

  -- By one comparison, and where it finds no difference by another.
  by_both :
      (c c' : A → A → ℤ)
      → IsComparison c
      → IsComparison c'
      → IsComparison (λ a b. if eqb_ℤ (c a b) (pos 0) then c' a b else c a b)
  by_both c c' k k' = record {
    flip = λ a b. let e = k.flip a b in let f = k.flip b a in let g = k'.flip a b in ground arith;
    trans = λ a b d h h'.
        let e1 = k.flip a b in
        let e2 = k.flip b a in
        let e3 = k.flip b d in
        let e4 = k.flip d b in
        let e5 = k.flip a d in
        let e6 = k.flip d a in
        let t1 = k.trans a b d in
        let t2 = k.trans b d a in
        let t3 = k.trans d a b in
        let t4 = k'.trans a b d in ground (arith, e1, e2, e3, e4, e5, e6, t1, t2, t3, t4);
  }

  -- The same, with the first one reversed.
  by_both_reversed :
      (c c' : A → A → ℤ)
      → IsComparison c
      → IsComparison c'
      → IsComparison (λ a b. if eqb_ℤ (c a b) (pos 0) then c' a b else minus (c a b))
  by_both_reversed c c' k k' =
      subst IsComparison (λ i a b. if minus_zero (c a b) i then c' a b else minus (c a b))
        (by_both (λ a b. minus (c a b)) c' (reversed c k) k')
    where
      minus_zero : (z : ℤ) → eqb_ℤ (minus z) (pos 0) ≡ eqb_ℤ z (pos 0)
      minus_zero z = ground arith

  -- By what a function gives of each value.
  by_image {κ} :
      {B : Type κ} (f : A → B) (c : B → B → ℤ)
      → IsComparison c
      → IsComparison (λ (a : A). λ (b : A). c (f a) (f b))
  by_image f c k = record {
    flip = λ a b. k.flip (f a) (f b);
    trans = λ a b d. k.trans (f a) (f b) (f d);
  }

by_pid : IsComparison (λ (p : Process). λ (q : Process). spaceship (pos p.pid) (pos q.pid))
by_pid = by_number (λ (p : Process). pos p.pid)

module _ (strcmp : List ℕ → List ℕ → ℤ) (texts : IsComparison strcmp) where
  by_text :
      (f : Process → List ℕ) → IsComparison (λ (p : Process). λ (q : Process). strcmp (f p) (f q))
  by_text f = by_image f strcmp texts

  pub compare_by_key-IsComparison :
      (s : SortSettings) (key : ProcessField) → IsComparison (compare_by_key strcmp s key)
  unfolding compare_by_key
  compare_by_key-IsComparison s ProcessField.percent_cpu =
      by_number (λ (p : Process). p.percent_cpu)
  compare_by_key-IsComparison s ProcessField.percent_norm_cpu =
      by_number (λ (p : Process). p.percent_cpu)
  compare_by_key-IsComparison s ProcessField.percent_mem = by_number (λ (p : Process). p.m_resident)
  compare_by_key-IsComparison s ProcessField.majflt = by_number (λ (p : Process). pos p.majflt)
  compare_by_key-IsComparison s ProcessField.minflt = by_number (λ (p : Process). pos p.minflt)
  compare_by_key-IsComparison s ProcessField.m_resident = by_number (λ (p : Process). p.m_resident)
  compare_by_key-IsComparison s ProcessField.m_virt = by_number (λ (p : Process). p.m_virt)
  compare_by_key-IsComparison s ProcessField.nice = by_number (λ (p : Process). p.nice)
  compare_by_key-IsComparison s ProcessField.nlwp = by_number (λ (p : Process). p.nlwp)
  compare_by_key-IsComparison s ProcessField.pgrp = by_number (λ (p : Process). p.pgrp)
  compare_by_key-IsComparison s ProcessField.pid = by_number (λ (p : Process). pos p.pid)
  compare_by_key-IsComparison s ProcessField.ppid = by_number (λ (p : Process). pos p.ppid)
  compare_by_key-IsComparison s ProcessField.priority = by_number (λ (p : Process). p.priority)
  compare_by_key-IsComparison s ProcessField.processor = by_number (λ (p : Process). p.processor)
  compare_by_key-IsComparison s ProcessField.session = by_number (λ (p : Process). p.session)
  compare_by_key-IsComparison s ProcessField.state =
      by_number (λ (p : Process). pos (state_number p.state))
  compare_by_key-IsComparison s ProcessField.st_uid = by_number (λ (p : Process). pos p.st_uid)
  compare_by_key-IsComparison s ProcessField.time = by_number (λ (p : Process). pos p.time)
  compare_by_key-IsComparison s ProcessField.tgid = by_number (λ (p : Process). pos p.tgid)
  compare_by_key-IsComparison s ProcessField.tpgid = by_number (λ (p : Process). p.tpgid)
  compare_by_key-IsComparison s ProcessField.comm =
      by_text (λ (p : Process). text_or [] (get_command_str s.show_thread_names p))
  compare_by_key-IsComparison s ProcessField.proc_comm = by_text (λ (p : Process). comm_text p)
  compare_by_key-IsComparison s ProcessField.proc_exe = by_text (λ (p : Process). exe_text p)
  compare_by_key-IsComparison s ProcessField.cwd = by_text (λ (p : Process). text_or [] p.proc_cwd)
  compare_by_key-IsComparison s ProcessField.tty =
      by_text (λ (p : Process). text_or (127 ∷ []) p.tty_name)
  compare_by_key-IsComparison s ProcessField.user = by_text (λ (p : Process). text_or [] p.user)
  compare_by_key-IsComparison s ProcessField.elapsed =
      by_both
        (λ (p : Process). λ (q : Process). minus (spaceship p.starttime_ctime q.starttime_ctime))
        (λ (p : Process). λ (q : Process). spaceship (pos p.pid) (pos q.pid))
        (reversed (λ (p : Process). λ (q : Process). spaceship p.starttime_ctime q.starttime_ctime)
          (by_number (λ (p : Process). p.starttime_ctime)))
        by_pid
  compare_by_key-IsComparison s ProcessField.starttime =
      by_both (λ (p : Process). λ (q : Process). spaceship p.starttime_ctime q.starttime_ctime)
        (λ (p : Process). λ (q : Process). spaceship (pos p.pid) (pos q.pid))
        (by_number (λ (p : Process). p.starttime_ctime)) by_pid
  compare_by_key-IsComparison s (ProcessField.other n) = by_pid

  -- The comparison of the class is one for the key. Without one the key is not `other`, at which
  -- `Process_compareByKey_Base` asserts that it is not called.
  abbrev pub Orders : Option (ProcessField → Process → Process → ℤ) → ProcessField → Type 0
  Orders none key = (n : ℕ) → key ≢ ProcessField.other n
  Orders (some by_key) key = IsComparison (by_key key)

  compare_by_class-IsComparison :
      (class : Option (ProcessField → Process → Process → ℤ)) (s : SortSettings)
      (key : ProcessField)
      → Orders class key
      → IsComparison (compare_by_class strcmp class s key)
  unfolding compare_by_class
  compare_by_class-IsComparison none s key o = compare_by_key-IsComparison s key
  compare_by_class-IsComparison (some by_key) s key o = o

  -- The result in the active direction, and where that is none the order of the pids.
  compare-IsComparison :
      (class : Option (ProcessField → Process → Process → ℤ)) (s : SortSettings)
      → Orders class (get_active_sort_key s)
      → IsComparison (compare strcmp class s)
  unfolding compare
  compare-IsComparison class s o =
      let key = get_active_sort_key s in
      let c = compare_by_class strcmp class s key in
      let k = compare_by_class-IsComparison class s key o in
      let tie = λ (p : Process). λ (q : Process). spaceship (pos p.pid) (pos q.pid) in
      elim (Bool-cases (eqb_ℤ (get_active_direction s) (pos 1))) [
        | inl up ↦
            subst
              (λ b. IsComparison (λ (p : Process). λ (q : Process).
                if eqb_ℤ (c p q) (pos 0)
                then spaceship (pos p.pid) (pos q.pid)
                else if b
                then c p q
                else minus (c p q)))
              (sym up) (by_both c tie k by_pid)
        | inr down ↦
            subst
              (λ b. IsComparison (λ (p : Process). λ (q : Process).
                if eqb_ℤ (c p q) (pos 0)
                then spaceship (pos p.pid) (pos q.pid)
                else if b
                then c p q
                else minus (c p q)))
              (sym down) (by_both_reversed c tie k by_pid)
      ]

  -- `Process_compare` is total and transitive, in every direction and view, as the sorts of a vector
  -- want it, if strcmp is a comparison and the comparison of the platform's class, where it has one,
  -- is one for the active key; where it has none, for every key of Process.c itself.
  pub compare-IsPreorder :
      (class : Option (ProcessField → Process → Process → ℤ)) (s : SortSettings)
      → Orders class (get_active_sort_key s)
      → IsPreorder (λ p q. leb_ℤ (compare strcmp class s p q) (pos 0))
  compare-IsPreorder class s o = record {
    total = λ p q h.
        let e = (compare-IsComparison class s o).flip q p in
        let f = (compare-IsComparison class s o).flip p q in ground arith;
    trans = (compare-IsComparison class s o).trans;
  }

  -- `Process_compare` is never 0 for two processes with different pids, whatever the class.
  pub compare-tells_apart :
      (class : Option (ProcessField → Process → Process → ℤ)) (s : SortSettings) (p q : Process)
      → p.pid ≢ q.pid
      → compare strcmp class s p q ≢ pos 0
  unfolding compare
  compare-tells_apart class s p q ne e =
      apart (compare_by_class strcmp class s (get_active_sort_key s) p q) p.pid q.pid
        (eqb_ℤ (get_active_direction s) (pos 1)) ne (ap pos_part e) (ap neg_part e)
    where
      apart :
          (z : ℤ) (x y : ℕ) (b : Bool)
          → x ≢ y
          → (let r =
                if eqb_ℤ z (pos 0) then spaceship (pos x) (pos y) else if b then z else minus z in
              pos_part r ≡ 0 → neg_part r ≡ 0 → ⊥)
      apart z x y b ne h k = ground arith

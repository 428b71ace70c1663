-- ===== src/ProcessList/Panel/Wanted.antt =====
-- Which processes the main panel shows, and which one it follows.
use htop.Prelude.{
  ℕ, ◌≡◌, refl, sym, ap, ◌∙◌, Bool, true, Option, none, some, List, [], ◌∷◌, ◌==◌, ◌&&◌, Bool-cases,
  ◌⊎◌, inl, inr, arith,
}
use htop.IncSet.Weak.{kept}
use htop.Process.{Process, is_thread, get_command_str}
use htop.Process.Compare.{text_or}
use htop.ProcessList.Scan.{get}
use htop.ProcessList.Panel.{Shows, is_some, is_wanted, followed}

-- `xs` are exactly those of the list that are wanted, in their order.
pub data Picked (Wants : ℕ → Type 0) : List ℕ → List ℕ → Type 0 where
  nothing : Picked Wants [] []
  picked : {p : ℕ} {xs ys : List ℕ} → Wants p → Picked Wants xs ys → Picked Wants (p ∷ xs) (p ∷ ys)
  passed : {p : ℕ} {xs ys : List ℕ} → ¬ (Wants p) → Picked Wants xs ys → Picked Wants xs (p ∷ ys)

is_some-some : (o : Option ℕ) → is_some o ≡ true → (n : ℕ) × (o ≡ some n)
is_some-some none h = cc
is_some-some (some n) h = (n, refl)

option_cases : (o : Option ℕ) → (o ≡ none) ⊎ ((n : ℕ) × (o ≡ some n))
option_cases none = inl refl
option_cases (some n) = inr (n, refl)

-- A test of what may be there.
each {ℓ} :
    {A : Type ℓ} (o : Option A) (f : A → Bool)
    → ((x : A) → o ≡ some x → f x ≡ true)
    → elim o as (λ _. Bool) [ none ↦ true | some x ↦ f x ] ≡ true
each none f h = refl
each (some x) f h = h x refl

module _ (contains_i : List ℕ → List ℕ → Bool) (s : Shows) (heap : ℕ → Process) where
  -- Shown, of the user that is chosen, with the filter's text in the command, and with its main
  -- process in the list of pids given, where there are such.
  pub record Wanted (p : ℕ) : Type 0 where
    pub showing : (heap p).show ≡ true
    pub of_user : (id : ℕ) → s.user_id ≡ some id → (heap p).st_uid ≡ id
    pub matches :
        (text : List ℕ)
        → s.inc_filter ≡ some text
        → contains_i (text_or [] (get_command_str s.show_thread_names (heap p))) text ≡ true
    pub listed :
        (pids : List (ℕ × ℕ))
        → s.pid_match_list ≡ some pids
        → (n : ℕ) × (get (heap p).tgid pids ≡ some n)

  -- A userland thread is followed while these are hidden, and its main process is known.
  pub record HiddenThread (table : List (ℕ × ℕ)) (before : Option ℕ) (p : ℕ) : Type 0 where
    pub hidden : s.hide_userland_threads ≡ true
    pub pid : (n : ℕ) × (before ≡ some n) × (get n table ≡ some p)
    pub thread : is_thread (heap p) ≡ true
    pub main : (m : ℕ) × (get (heap p).tgid table ≡ some m)

  -- The pid that is followed from now on.
  pub record IsTarget (table : List (ℕ × ℕ)) (before target : Option ℕ) : Type 0 where
    pub to_main : (p : ℕ) → HiddenThread table before p → target ≡ some (heap p).tgid
    pub same : ((p : ℕ) → ¬ (HiddenThread table before p)) → target ≡ before

  user_test : ℕ → Bool
  user_test p = elim s.user_id as (λ _. Bool) [ none ↦ true | some id ↦ (heap p).st_uid == id ]

  text_test : ℕ → Bool
  text_test p = elim s.inc_filter as (λ _. Bool) [
    | none ↦ true
    | some text ↦ contains_i (text_or [] (get_command_str s.show_thread_names (heap p))) text
  ]

  pid_test : ℕ → Bool
  pid_test p = elim s.pid_match_list as (λ _. Bool) [
    | none ↦ true
    | some pids ↦ is_some (get (heap p).tgid pids)
  ]

  is_wanted-tests :
      (p : ℕ)
      → is_wanted contains_i s heap p ≡ ((heap p).show && user_test p && text_test p && pid_test p)
  unfolding is_wanted user_test text_test pid_test
  is_wanted-tests p = refl

  is_wanted-Wanted : (p : ℕ) → is_wanted contains_i s heap p ≡ true → Wanted p
  unfolding user_test text_test pid_test
  is_wanted-Wanted p h =
      let e : ((heap p).show && user_test p && text_test p && pid_test p) ≡ true =
        sym (is_wanted-tests p) ∙ h in
      let user : user_test p ≡ true = ground (arith, e) in
      let text : text_test p ≡ true = ground (arith, e) in
      let listed : pid_test p ≡ true = ground (arith, e) in
      record {
        showing = ground (arith, e);
        of_user = λ id is.
            let test : ((heap p).st_uid == id) ≡ true = rw is at user in ground (arith, test);
        matches = λ t is. rw is at text;
        listed = λ pids is. is_some-some (get (heap p).tgid pids) (rw is at listed);
      }

  Wanted-is_wanted : (p : ℕ) → Wanted p → is_wanted contains_i s heap p ≡ true
  unfolding user_test text_test pid_test
  Wanted-is_wanted p w =
      let user : user_test p ≡ true =
        each s.user_id (λ id. (heap p).st_uid == id)
          (λ id is. let e = w.of_user id is in ground (arith, e)) in
      let text : text_test p ≡ true =
        each s.inc_filter
          (λ t. contains_i (text_or [] (get_command_str s.show_thread_names (heap p))) t)
          w.matches in
      let listed : pid_test p ≡ true =
        each s.pid_match_list (λ pids. is_some (get (heap p).tgid pids))
          (λ pids is. let (n, e) = w.listed pids is in rw e refl) in
      is_wanted-tests p ∙ rw (w.showing, user, text, listed) refl

  -- The list that the loop fills the panel with.
  pub kept-Picked : (ps : List ℕ) → Picked Wanted (kept (is_wanted contains_i s heap) ps) ps
  kept-Picked [] = nothing
  kept-Picked (p ∷ ps) = elim (Bool-cases (is_wanted contains_i s heap p)) [
    | inl wanted ↦ rw wanted (picked (is_wanted-Wanted p wanted) (kept-Picked ps))
    | inr other ↦
        let not_wanted : ¬ (Wanted p) = λ w. let wanted = Wanted-is_wanted p w in cc in
        rw other (passed not_wanted (kept-Picked ps))
  ]

  pub followed-IsTarget :
      (table : List (ℕ × ℕ)) (before : Option ℕ)
      → IsTarget table before (followed contains_i s heap table before)
  unfolding followed
  followed-IsTarget table before = record {
    to_main = λ p t. to_main p before t.pid t;
    same = unchanged before;
  }
    where
      to_main :
          (p : ℕ) (old : Option ℕ)
          → (n : ℕ) × (old ≡ some n) × (get n table ≡ some p)
          → HiddenThread table old p
          → followed contains_i s heap table old ≡ some (heap p).tgid
      to_main p none (n, e, at) t = cc
      to_main p (some m) (n, e, at) t =
          let same : m ≡ n = ap (λ o. elim o as (λ _. ℕ) [ none ↦ 0 | some x ↦ x ]) e in
          let at' : get m table ≡ some p = ap (λ x. get x table) same ∙ at in
          let (k, known) = t.main in rw (followed, t.hidden, at', t.thread, known) refl

      unchanged :
          (old : Option ℕ)
          → ((p : ℕ) → ¬ (HiddenThread table old p))
          → followed contains_i s heap table old ≡ old
      unchanged none apart = refl
      unchanged (some n) apart = elim (Bool-cases s.hide_userland_threads) [
        | inr visible ↦ rw (followed, visible) refl
        | inl hidden ↦ elim (option_cases (get n table)) [
          | inl unknown ↦ rw (followed, hidden, unknown) refl
          | inr (p, at) ↦
              elim (Bool-cases (is_thread (heap p) && is_some (get (heap p).tgid table))) [
                | inr other ↦ rw (followed, hidden, at, other) refl
                | inl both ↦
                    let listed : is_some (get (heap p).tgid table) ≡ true = ground (arith, both) in
                    absurd (
                      apart p (record {
                        hidden = hidden;
                        pid = (n, refl, at);
                        thread = ground (arith, both);
                        main = is_some-some (get (heap p).tgid table) listed;
                      }))
              ]
        ]
      ]

-- ===== src/Task/Validator/Terminal.antt =====
-- pkg/task/sm_validator.go: `canReachTerminal` decides whether the edges lead to a terminal state.
use nuts.Base.{
  ◌≡◌, ◌↔◌, refl, subst, true, false, List, [], ◌∷◌, String, ℕ, zero, suc, ◌<◌, contains,
  lookup_list, length, arith, eq_iff, eq_refl, Bool-cases, str_eq_cases, inl, inr, sym,
}
use nuts.Task.Validator.{Graph, targets, Answer, dfs, dfs_each, can_reach_terminal}
use nuts.Task.Validator.Search.{
  unseen-length, Edge, Reach, here, step, Closed, Within, Reach-Closed, Edge-targets, unseen,
  unseen-cons, unseen-Within,
}

pub Reach-trans :
    {graph : Graph} {s t : String} (u : String)
    → Reach graph s t
    → Reach graph t u
    → Reach graph s u
Reach-trans u a here = a
Reach-trans u a (step {s = v} b e) = step (Reach-trans v a b) e

module _ (graph : Graph) (terminals : List String) where
  -- A search of the given states, after which the answer holds: either a terminal state is reached
  -- from one of them, or each is visited, and each newly visited state is no terminal one and has its
  -- successors visited.
  record Explored (before from : List String) (a : Answer) : Type 0 where
    grows : Within before a.visited
    sound :
        a.found ≡ true
        → (s : String) × (t : String) × (contains from s ≡ true)
          × (contains terminals t ≡ true)
          × Reach graph s t
    all : a.found ≡ false → Within from a.visited
    done :
        a.found ≡ false
        → (s : String) → contains a.visited s ≡ true
        → contains before s ≡ false
        → (contains terminals s ≡ false)
          × ((t : String) → Edge graph s t → contains a.visited t ≡ true)

  dfs_each-Explored :
      (us : List String) (n : ℕ) (visit : List String → String → Answer)
      → ((before : List String) (s : String)
          → contains us s ≡ true
          → unseen us before < n
          → Explored before (s ∷ []) (visit before s))
      → (from before : List String) → Within from us
      → unseen us before < n
      → Explored before from (dfs_each visit before from)
  unfolding dfs_each
  dfs_each-Explored us n visit one [] before h m = record {
    grows = λ s i. i;
    sound = λ e. absurd (ground (arith, e));
    all = λ e s i. absurd (ground (arith, i));
    done = λ e s i j. absurd (ground (arith, i, j));
  }
  dfs_each-Explored us n visit one (x ∷ from) before h m =
      let a = one before x (h x (ground (arith, eq_refl x))) m in
      let after = (visit before x).visited in
      let b =
        dfs_each-Explored us n visit one from after (λ s i. h s (ground (arith, i)))
          (omega (arith, m, unseen-Within us before after a.grows)) in
      elim (Bool-cases (visit before x).found) [
        | inl e ↦ subst (Explored before (x ∷ from)) (ground (arith, e)) (record {
          grows = a.grows;
          sound = λ f. let (s, t, i, j, r) = a.sound f in (s, t, ground (arith, i), j, r);
          all = λ f. absurd (ground (arith, e, f));
          done = λ f. absurd (ground (arith, e, f));
        })
        | inr e ↦ subst (Explored before (x ∷ from)) (ground (arith, e)) (record {
          grows = λ s i. b.grows s (a.grows s i);
          sound = λ f. let (s, t, i, j, r) = b.sound f in (s, t, ground (arith, i), j, r);
          all = λ f s i. elim (str_eq_cases x s) [
            | inl y ↦ b.grows s (a.all e s (ground (arith, y, eq_iff x s)))
            | inr o ↦ b.all f s (ground (arith, i, o))
          ];
          done = λ f s i j. elim (Bool-cases (contains after s)) [
            | inl k ↦ let (u, v) = a.done e s k j in (u, λ t g. b.grows t (v t g))
            | inr k ↦ b.done f s i k
          ];
        })
      ]

  dfs-Explored :
      (us : List String)
      → Within (targets graph) us
      → (n : ℕ) (before : List String) (s : String) → contains us s ≡ true
      → unseen us before < n
      → Explored before (s ∷ []) (dfs n graph terminals before s)
  unfolding dfs
  dfs-Explored us w zero before s h m = absurd (omega (arith, m))
  dfs-Explored us w (suc n) before s h m = elim (Bool-cases (contains before s)) [
    | inl e ↦
        rw (dfs, e)
          (record {
            grows = λ x i. i;
            sound = λ f. absurd (ground (arith, f));
            all = λ f x i. ground (arith, i, e, eq_iff s x);
            done = λ f x i j. absurd (ground (arith, i, j));
          })
    | inr e ↦ elim (Bool-cases (contains terminals s)) [
      | inl t ↦
          rw (dfs, e, t)
            (record {
              grows = λ x i. i;
              sound = λ f. (s, s, ground (arith, eq_refl s), t, here);
              all = λ f. absurd (ground (arith, f));
              done = λ f. absurd (ground (arith, f));
            })
      | inr t ↦
          let b =
            dfs_each-Explored us n (dfs n graph terminals) (dfs-Explored us w n)
              (lookup_list s graph) (s ∷ before) (λ x i. w x (Edge-targets graph s x i))
              (omega (arith, m, unseen-cons us before s h e)) in
          rw (dfs, e, t)
            (record {
              grows = λ x i. b.grows x (ground (arith, i));
              sound = λ f.
                  let (u, v, i, j, r) = b.sound f in
                  (s, v, ground (arith, eq_refl s), j, Reach-trans v (step here i) r);
              all = λ f x i. b.grows x (ground (arith, i));
              done = λ f x i j. elim (str_eq_cases s x) [
                | inl y ↦
                    (ground (arith, t, y), λ z g. b.all f z (subst (λ o. Edge graph o z) (sym y) g))
                | inr o ↦ b.done f x i (ground (arith, j, o))
              ];
            })
    ]
  ]

  -- The search answers yes exactly where the edges reach a terminal state; its fuel is enough.
  pub can_reach_terminal_lem :
      (start : String)
      → (can_reach_terminal start graph terminals ≡ true)
        ↔ ((t : String) × (contains terminals t ≡ true) × Reach graph start t)
  unfolding can_reach_terminal
  can_reach_terminal_lem start =
      let a =
        dfs-Explored (start ∷ targets graph) (λ s i. ground (arith, i))
          (suc (suc (length (targets graph)))) [] start (ground (arith, eq_refl start))
          (omega (arith, unseen-length (start ∷ targets graph) [])) in
      (
        λ e.
            let (s, t, i, j, r) = a.sound e in
            (t, j, subst (λ x. Reach graph x t) (ground (arith, i, eq_iff start s)) r),
        λ (t, j, r). elim (Bool-cases (can_reach_terminal start graph terminals)) [
          | inl y ↦ y
          | inr n ↦
              let visited =
                (dfs (suc (suc (length (targets graph)))) graph terminals [] start).visited in
              let closed : Closed graph visited = λ x y i g. (a.done n x i refl).1 y g in
              let at =
                Reach-Closed graph visited start t closed
                  (a.all n start (ground (arith, eq_refl start))) r in
              absurd (ground (arith, j, (a.done n t at refl).0))
        ],
      )

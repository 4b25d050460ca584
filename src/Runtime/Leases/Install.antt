-- ===== src/Runtime/Leases/Install.antt =====
-- `install` keeps the invariant: a run that takes a thread over with the next fence token.
use enterprise_sales_intelli.Prelude.{
  ◌+◌, ◌≤◌, ◌<◌, String, ◌≡◌, refl, sym, ◌∙◌, ap, subst, ◌≢◌, ◌⊎◌, inl, inr, some, get_or,
  string_eq, pair_eq, beq-cases, arith,
}
use enterprise_sales_intelli.Prelude.Dict.{
  lookup, lookup-insert_self, lookup-insert_ne, lookup-insert_cases,
}
use enterprise_sales_intelli.Runtime.Models.{ExecutionRun}
use enterprise_sales_intelli.Runtime.Leases.{Key, Coordinator, thread_of, fence_of, install}
use enterprise_sales_intelli.Runtime.Leases.Invariant.{IsValid, Owns, Requested}

module _ {P : Type 0} (key : Key) (run : ExecutionRun P) (s : Coordinator P) where
  -- What `claim` knows of the run that it installs.
  pub record Installable : Type 0 where
    pub named : run.run_id ≢ ""
    pub threaded : thread_of run ≡ key
    pub fenced : run.fence_token ≡ fence_of key s + 1
    pub slot : (x : ExecutionRun P) → lookup run.run_id s.runs ≡ some x → thread_of x ≡ key

module _ {P : Type 0} (key : Key) (run : ExecutionRun P) (s : Coordinator P) where
  abbrev IsOld : String → ExecutionRun P → Type 0
  IsOld q z = (run.run_id ≢ q) × (lookup q s.runs ≡ some z)

  run_cases :
      (q : String) (z : ExecutionRun P)
      → lookup q (install key run s).runs ≡ some z
      → (run.run_id ≡ q) × (run ≡ z) ⊎ IsOld q z
  unfolding install
  run_cases q z h = lookup-insert_cases q run.run_id run s.runs h

  pub fence_of-install_self : fence_of key (install key run s) ≡ run.fence_token
  unfolding install
  fence_of-install_self = ap (λ o. get_or o 0) (lookup-insert_self key run.fence_token s.fences)

  pub fence_of-install_ne : (k : Key) → key ≢ k → fence_of k (install key run s) ≡ fence_of k s
  unfolding install
  fence_of-install_ne k h = ap (λ o. get_or o 0) (lookup-insert_ne k key run.fence_token s.fences h)

  pub found_self : lookup run.run_id (install key run s).runs ≡ some run
  unfolding install
  found_self = lookup-insert_self run.run_id run s.runs

  pub found_ne : (q : String) → run.run_id ≢ q → lookup q (install key run s).runs ≡ lookup q s.runs
  unfolding install
  found_ne q h = lookup-insert_ne q run.run_id run s.runs h

  module _ (i : Installable key run s) (v : IsValid s) where
    -- Every run of the thread that was there before carries an older fence token.
    old_fence :
        (q : String) (z : ExecutionRun P)
        → lookup q s.runs ≡ some z
        → thread_of z ≡ key
        → z.fence_token < run.fence_token
    old_fence q z h t =
        let le = subst (λ k. z.fence_token ≤ fence_of k s) t (v.bounded q z h) in
        omega (arith, le, i.fenced)

    install-bounded :
        (q : String) (z : ExecutionRun P)
        → lookup q (install key run s).runs ≡ some z
        → z.fence_token ≤ fence_of (thread_of z) (install key run s)
    install-bounded q z h = elim (run_cases q z h) [
      | inl (same, new) ↦
          subst (λ y. y.fence_token ≤ fence_of (thread_of y) (install key run s)) new
            (subst (λ k. run.fence_token ≤ fence_of k (install key run s)) (sym i.threaded)
              (omega (arith, fence_of-install_self)))
      | inr (other, old) ↦ elim (beq-cases key (thread_of z)) [
        | inl (t, same) ↦
            subst (λ k. z.fence_token ≤ fence_of k (install key run s)) same
              (omega (arith, fence_of-install_self, old_fence q z old (sym same)))
        | inr (f, ne) ↦ omega (arith, fence_of-install_ne (thread_of z) ne, v.bounded q z old)
      ]
    ]

    install-distinct :
        (q p : String) (x y : ExecutionRun P)
        → lookup q (install key run s).runs ≡ some x
        → lookup p (install key run s).runs ≡ some y
        → thread_of x ≡ thread_of y
        → x.fence_token ≡ y.fence_token
        → q ≡ p
    install-distinct q p x y h h' threads fences = elim (run_cases q x h) [
      | inl (same, new) ↦ elim (run_cases p y h') [
        | inl (same', new') ↦ sym same ∙ same'
        | inr (other', old') ↦
            let t = sym threads ∙ ap thread_of (sym new) ∙ i.threaded in
            let e = ap (λ z. z.fence_token) new in absurd (omega (arith, old_fence p y old' t, e))
      ]
      | inr (other, old) ↦ elim (run_cases p y h') [
        | inl (same', new') ↦
            let t = threads ∙ ap thread_of (sym new') ∙ i.threaded in
            let e = ap (λ z. z.fence_token) new' in absurd (omega (arith, old_fence q x old t, e))
        | inr (other', old') ↦ v.distinct q p x y old old' threads fences
      ]
    ]

    active_cases :
        (k : Key) (q : String)
        → lookup k (install key run s).active ≡ some q
        → (key ≡ k) × (run.run_id ≡ q) ⊎ (key ≢ k) × (lookup k s.active ≡ some q)
    unfolding install
    active_cases k q h = lookup-insert_cases k key run.run_id s.active h

    install-owned :
        (k : Key) (q : String)
        → lookup k (install key run s).active ≡ some q
        → Owns (install key run s) k q
    install-owned k q h = elim (active_cases k q h) [
      | inl (same, new) ↦ record {
        run = run;
        found = subst (λ r. lookup r (install key run s).runs ≡ some run) new found_self;
        threaded = i.threaded ∙ same;
        fenced = sym fence_of-install_self ∙ ap (λ t. fence_of t (install key run s)) same;
      }
      | inr (other, old) ↦
          let o = v.owned k q old in
          let ne : run.run_id ≢ q =
            λ e. other (sym (i.slot o.run (ap (λ r. lookup r s.runs) e ∙ o.found)) ∙ o.threaded) in
          record {
            run = o.run;
            found = found_ne q ne ∙ o.found;
            threaded = o.threaded;
            fenced = o.fenced ∙ sym (fence_of-install_ne k other);
          }
    ]

    requests_same : (install key run s).requests ≡ s.requests
    unfolding install
    requests_same = refl

    install-Requested :
        (k : Key) (q : String)
        → lookup k (install key run s).requests ≡ some q
        → Requested (install key run s) k q
    install-Requested k q h =
        let o = v.requested k q (ap (lookup k) (sym requests_same) ∙ h) in
        elim (beq-cases run.run_id q) [
          | inl (t, same) ↦
              let there = i.slot o.run (ap (λ r. lookup r s.runs) same ∙ o.found) in
              record {
                run = run;
                found = subst (λ r. lookup r (install key run s).runs ≡ some run) same found_self;
                workspace = ap (λ t. t.0) (i.threaded ∙ sym there) ∙ o.workspace;
              }
          | inr (f, ne) ↦ record {
            run = o.run;
            found = found_ne q ne ∙ o.found;
            workspace = o.workspace;
          }
        ]

    install-named :
        (q : String) (z : ExecutionRun P)
        → lookup q (install key run s).runs ≡ some z
        → z.run_id ≡ q
    install-named q z h = elim (run_cases q z h) [
      | inl (same, new) ↦ ap (λ y. y.run_id) (sym new) ∙ same
      | inr (other, old) ↦ v.named q z old
    ]

    pub install-IsValid : IsValid (install key run s)
    install-IsValid = record {
      named = install-named;
      unnamed = found_ne "" i.named ∙ v.unnamed;
      bounded = install-bounded;
      distinct = install-distinct;
      owned = install-owned;
      requested = install-Requested;
    }

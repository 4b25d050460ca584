-- ===== src/Runtime/Leases/Growth.antt =====
-- What no update takes back: a stored run stays stored, in its thread, and fence tokens only rise.
use enterprise_sales_intelli.Prelude.{
  ◌≤◌, String, ◌≡◌, refl, sym, ◌∙◌, ap, subst, ◌⊎◌, inl, inr, Option, none, some, string_eq,
  pair_eq, arith, Bool-cases, beq-cases, get_or,
}
use enterprise_sales_intelli.Prelude.Dict.{lookup}
use enterprise_sales_intelli.Runtime.Models.{ExecutionRun, is_active, recoverable}
use enterprise_sales_intelli.Runtime.Leases.{
  Key, Coordinator, thread_of, fence_of, find_run, release_expired, install,
}
use enterprise_sales_intelli.Runtime.Leases.Invariant.{
  IsValid, Similar, Similar-refl, put, put_back, put_forth, put-IsValid, vacate,
}
use enterprise_sales_intelli.Runtime.Leases.Install.{
  Installable, found_self, found_ne, fence_of-install_self, fence_of-install_ne,
}

module _ {P : Type 0} where
  -- The run `x` of an earlier state, as it is stored later.
  pub record Kept (x : ExecutionRun P) (r : String) (t : Coordinator P) : Type 0 where
    pub run : ExecutionRun P
    pub found : lookup r t.runs ≡ some run
    pub threaded : thread_of run ≡ thread_of x
    pub risen : x.fence_token ≤ run.fence_token

  pub record Grows (s t : Coordinator P) : Type 0 where
    pub kept : (r : String) (x : ExecutionRun P) → lookup r s.runs ≡ some x → Kept x r t
    pub raised : (k : Key) → fence_of k s ≤ fence_of k t

  pub Grows-refl : (s : Coordinator P) → Grows s s
  Grows-refl s = record {
    kept = λ r x h. record { run = x; found = h; threaded = refl; risen = omega arith };
    raised = λ k. omega arith;
  }

  pub Grows-trans : {s t u : Coordinator P} → Grows s t → Grows t u → Grows s u
  Grows-trans g h = record {
    kept = λ r x e.
        let k = g.kept r x e in
        let l = h.kept r k.run k.found in
        record {
          run = l.run;
          found = l.found;
          threaded = l.threaded ∙ k.threaded;
          risen = omega (arith, k.risen, l.risen);
        };
    raised = λ k. omega (arith, g.raised k, h.raised k);
  }

  pub put-Grows :
      (s : Coordinator P) (r : String) (x y : ExecutionRun P)
      → lookup r s.runs ≡ some x
      → Similar x y
      → Grows s (put r y s)
  put-Grows s r x y found similar = record {
    kept = λ q z h.
        let (w, new, sim) = put_forth s r x y found similar q z h in
        record {
          run = w;
          found = new;
          threaded = sym sim.threaded;
          risen = omega (arith, sim.fenced);
        };
    raised = λ k. omega arith;
  }

  pub vacate-Grows : (key : Key) (s : Coordinator P) → Grows s (vacate key s)
  vacate-Grows key s = record {
    kept = λ r x h. record { run = x; found = h; threaded = refl; risen = omega arith };
    raised = λ k. omega arith;
  }

  pub install-Grows :
      (key : Key) (run : ExecutionRun P) (s : Coordinator P)
      → IsValid s
      → Installable key run s
      → Grows s (install key run s)
  install-Grows key run s v i = record { kept = keep; raised = raise }
    where
      raise : (k : Key) → fence_of k s ≤ fence_of k (install key run s)
      raise k = elim (beq-cases key k) [
        | inl (t, same) ↦
            subst (λ k. fence_of k s ≤ fence_of k (install key run s)) same
              (omega (arith, fence_of-install_self key run s, i.fenced))
        | inr (f, other) ↦ omega (arith, fence_of-install_ne key run s k other)
      ]

      keep :
          (r : String) (x : ExecutionRun P)
          → lookup r s.runs ≡ some x
          → Kept x r (install key run s)
      keep r x h = elim (beq-cases run.run_id r) [
        | inl (t, same) ↦
            let there = i.slot x (ap (λ q. lookup q s.runs) same ∙ h) in
            let le = subst (λ k. x.fence_token ≤ fence_of k s) there (v.bounded r x h) in
            record {
              run = run;
              found =
                  subst (λ q. lookup q (install key run s).runs ≡ some run) same
                    (found_self key run s);
              threaded = i.threaded ∙ sym there;
              risen = omega (arith, le, i.fenced);
            }
        | inr (f, other) ↦ record {
          run = x;
          found = found_ne key run s r other ∙ h;
          threaded = refl;
          risen = omega arith;
        }
      ]

  -- `release_expired` writes the run that it is given, or nothing.
  pub record IsStored (o : Option (ExecutionRun P)) (s : Coordinator P) : Type 0 where
    pub stored : (x : ExecutionRun P) → o ≡ some x → lookup x.run_id s.runs ≡ some x

  -- The run that `find_run` returns is stored under its own identifier.
  pub find_run-IsStored :
      (o : Option String) (s : Coordinator P) → IsValid s → IsStored (find_run o s) s
  find_run-IsStored o s v = record {
    stored = λ x h. subst (λ r. lookup r s.runs ≡ some x) (sym (v.named (get_or o "") x h)) h;
  }

  abbrev pub demoted : ExecutionRun P → ExecutionRun P
  demoted x = record x { status = recoverable }

  demoted-Similar : (x : ExecutionRun P) → Similar x (demoted x)
  demoted-Similar x = record { named = refl; threaded = refl; fenced = refl }

  release_cases :
      (x : ExecutionRun P) (s : Coordinator P)
      → (release_expired (some x) s ≡ put x.run_id (demoted x) s) ⊎ (release_expired (some x) s ≡ s)
  unfolding release_expired
  release_cases x s = elim (Bool-cases (is_active x.status)) [
    | inl on ↦ inl (rw on)
    | inr off ↦ inr (rw off)
  ]

  pub release_expired-IsValid :
      (o : Option (ExecutionRun P)) (s : Coordinator P)
      → IsStored o s
      → IsValid s
      → IsValid (release_expired o s) × Grows s (release_expired o s)
  unfolding release_expired
  release_expired-IsValid none s f v = (v, Grows-refl s)
  release_expired-IsValid (some x) s f v = elim (release_cases x s) [
    | inl e ↦
        subst (λ t. IsValid t × Grows s t) (sym e)
          (
            put-IsValid s x.run_id x (demoted x) (f.stored x refl) (demoted-Similar x) v,
            put-Grows s x.run_id x (demoted x) (f.stored x refl) (demoted-Similar x),
          )
    | inr e ↦ subst (λ t. IsValid t × Grows s t) (sym e) (v, Grows-refl s)
  ]

  pub release_expired_back :
      (o : Option (ExecutionRun P)) (s : Coordinator P)
      → IsStored o s
      → (q : String) (z : ExecutionRun P) → lookup q (release_expired o s).runs ≡ some z
      → (w : ExecutionRun P) × (lookup q s.runs ≡ some w) × Similar w z
  unfolding release_expired
  release_expired_back none s f q z h = (z, h, Similar-refl z)
  release_expired_back (some x) s f q z h = elim (release_cases x s) [
    | inl e ↦
        put_back s x.run_id x (demoted x) (f.stored x refl) (demoted-Similar x) q z
          (ap (λ (t : Coordinator P). lookup q t.runs) (sym e) ∙ h)
    | inr e ↦ (z, ap (λ (t : Coordinator P). lookup q t.runs) (sym e) ∙ h, Similar-refl z)
  ]

  -- The other three dictionaries are left alone.
  pub release_expired-fence_of :
      (o : Option (ExecutionRun P)) (s : Coordinator P) (k : Key)
      → fence_of k (release_expired o s) ≡ fence_of k s
  unfolding release_expired
  release_expired-fence_of none s k = refl
  release_expired-fence_of (some x) s k = elim (release_cases x s) [
    | inl e ↦ ap (fence_of k) e
    | inr e ↦ ap (fence_of k) e
  ]

-- ===== src/Runtime/Leases/Fencing.antt =====
-- Fence tokens: who may promote results, and who no longer may.
use enterprise_sales_intelli.Prelude.{
  ℕ, ◌<◌, String, ◌≡◌, refl, sym, ◌∙◌, ap, inl, inr, Bool, true, false, Option, none, some,
  string_eq, pair_eq, arith, Option-cases, Bool-cases, eqb, ◌&&◌, some_inj,
}
use enterprise_sales_intelli.Prelude.Dict.{lookup}
use enterprise_sales_intelli.Runtime.Models.{ExecutionRun, is_active}
use enterprise_sales_intelli.Runtime.Leases.{
  Coordinator, thread_of, fence_of, can_promote, opt_eq, empty,
}
use enterprise_sales_intelli.Runtime.Leases.Invariant.{IsValid}
use enterprise_sales_intelli.Runtime.Leases.Histories.{Reach, Reach-Advances}

opt_eq-some : (o : Option String) (r : String) → opt_eq o r ≡ true → o ≡ some r
opt_eq-some none r h = cc
opt_eq-some (some q) r h = ap some ((string_eq.equals_iff q r).0 h)

pub promote_all :
    (o : Option String) (r : String) (n f : ℕ) (b : Bool)
    → o ≡ some r
    → n ≡ f
    → b ≡ true
    → (opt_eq o r && (eqb n f && b)) ≡ true
promote_all o r n f b h e k = rw h (ground (arith, string_eq.equals_iff r r))

promote_parts :
    (o : Option String) (r : String) (n f : ℕ) (b : Bool)
    → (opt_eq o r && (eqb n f && b)) ≡ true
    → (o ≡ some r) × (n ≡ f) × (b ≡ true)
promote_parts o r n f b h = (opt_eq-some o r (ground arith), ground arith, ground arith)

module _ {P : Type 0} where
  empty-IsValid : IsValid {P = P} empty
  unfolding lookup
  empty-IsValid = record {
    named = λ r x h. cc;
    unnamed = refl;
    bounded = λ r x h. absurd (cc);
    distinct = λ r q x y h. cc;
    owned = λ k r h. absurd (cc);
    requested = λ k r h. absurd (cc);
  }

  -- Whatever calls are made on a new coordinator, in any order and with any clock, if each new run
  -- gets an unused identifier: the active run of a thread is stored and carries the thread's newest
  -- fence token, no run carries a newer one, two runs of a thread never carry the same, and each
  -- request points to a stored run of its workspace.
  pub history-IsValid : {s : Coordinator P} → Reach empty s → IsValid s
  history-IsValid r = (Reach-Advances empty-IsValid r).0

  -- What `can_promote` has checked when it answers yes.
  pub record Holder (r : String) (f : ℕ) (s : Coordinator P) : Type 0 where
    pub run : ExecutionRun P
    pub found : lookup r s.runs ≡ some run
    pub current : lookup (thread_of run) s.active ≡ some r
    pub fenced : run.fence_token ≡ f
    pub active : is_active run.status ≡ true

  pub can_promote-Holder :
      (r : String) (f : ℕ) (s : Coordinator P) → can_promote r f s ≡ true → Holder r f s
  unfolding can_promote
  can_promote-Holder r f s h = elim (Option-cases (lookup r s.runs)) [
    | inl absent ↦ absurd (ground arith)
    | inr (run, found) ↦
        let h' = rw (found, can_promote) at h in
        let (current, fenced, active) =
          promote_parts (lookup (thread_of run) s.active) r run.fence_token f (is_active run.status)
            h' in
        record { run = run; found = found; current = current; fenced = fenced; active = active }
  ]

  -- In a valid state the token that may promote is the newest of its thread.
  Holder-newest :
      (r : String) (f : ℕ) (s : Coordinator P)
      → IsValid s
      → (h : Holder r f s) → f ≡ fence_of (thread_of h.run) s
  Holder-newest r f s v h =
      let o = v.owned (thread_of h.run) r h.current in
      let same : o.run ≡ h.run = some_inj (sym o.found ∙ h.found) in
      sym h.fenced ∙ ap (λ (x : ExecutionRun P). x.fence_token) (sym same) ∙ o.fenced

  -- In a valid state at most one run of a thread may promote its results, with one fence token.
  pub can_promote_unique :
      (r q : String) (f g : ℕ) (x y : ExecutionRun P) (s : Coordinator P)
      → IsValid s
      → lookup r s.runs ≡ some x
      → lookup q s.runs ≡ some y
      → thread_of x ≡ thread_of y
      → can_promote r f s ≡ true
      → can_promote q g s ≡ true
      → (r ≡ q) × (f ≡ g)
  can_promote_unique r q f g x y s v fx fy threads hr hq =
      let h = can_promote-Holder r f s hr in
      let k = can_promote-Holder q g s hq in
      let hx : h.run ≡ x = some_inj (sym h.found ∙ fx) in
      let ky : k.run ≡ y = some_inj (sym k.found ∙ fy) in
      let same : thread_of h.run ≡ thread_of k.run =
        ap thread_of hx ∙ threads ∙ ap thread_of (sym ky) in
      (
        some_inj (sym h.current ∙ ap (λ t. lookup t s.active) same ∙ k.current),
        Holder-newest r f s v h ∙ ap (λ t. fence_of t s) same ∙ sym (Holder-newest q g s v k),
      )

  -- From a valid state in which a thread's fence has passed the token of a run, no later calls let
  -- that token promote again.
  pub stale_fence-never-promotes :
      (r : String) (f : ℕ) (x : ExecutionRun P) (s t : Coordinator P)
      → IsValid s
      → lookup r s.runs ≡ some x
      → f < fence_of (thread_of x) s
      → Reach s t
      → can_promote r f t ≡ false
  stale_fence-never-promotes r f x s t v found old reach = elim (Bool-cases (can_promote r f t)) [
    | inr no_promotion ↦ no_promotion
    | inl promoted ↦
        let (w, grows) = Reach-Advances v reach in
        let h = can_promote-Holder r f t promoted in
        let k = grows.kept r x found in
        let same : k.run ≡ h.run = some_inj (sym k.found ∙ h.found) in
        let e : thread_of h.run ≡ thread_of x = ap thread_of (sym same) ∙ k.threaded in
        let newest : f ≡ fence_of (thread_of x) t =
          Holder-newest r f t w h ∙ ap (λ k. fence_of k t) e in
        absurd (omega (arith, newest, grows.raised (thread_of x)))
  ]

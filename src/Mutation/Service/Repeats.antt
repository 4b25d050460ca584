-- ===== src/Mutation/Service/Repeats.antt =====
-- A message mutates its task once.
use enterprise_sales_intelli.Prelude.{
  ℕ, String, Option, none, some, ◌≡◌, inl, inr, refl, ap, ◌∙◌, Eq, arith, string_eq,
}
use enterprise_sales_intelli.Prelude.Dict.{Dict}
use enterprise_sales_intelli.Tasks.Models.{TaskPatch, LeadTask}
use enterprise_sales_intelli.Tasks.Repository.{Repository, get_task}
use enterprise_sales_intelli.Rules.Models.{BusinessRule}
use enterprise_sales_intelli.Rules.Values.{Values}
use enterprise_sales_intelli.Mutation.Models.{ArtifactReuseContext}
use enterprise_sales_intelli.Mutation.Repository.{TaskMutation, find_mutation}
use enterprise_sales_intelli.Mutation.Validation.{Fresh}
use enterprise_sales_intelli.Mutation.Service.{ServiceState, Answer, mutate}
use enterprise_sales_intelli.Mutation.Service.Outcomes.{
  IsLinked, Effect, repeated, refused, unchanged, updated,
}
use enterprise_sales_intelli.Mutation.Service.Effects.{mutate-Effect}

abbrev returned : {V : Type 0} → TaskMutation V → Option (LeadTask V) → Answer V
returned m x = inr (m, x)

answered :
    {V : Type 0} (m m' : TaskMutation V) (x x' : Option (LeadTask V))
    → returned m x ≡ returned m' x'
    → m ≡ m'
answered m m' x x' h = ap (λ (a : Answer _). elim a [ inl why ↦ m | inr q ↦ q.0 ]) h

-- What is returned for a request is known from then on.
known_after :
    {V : Type 0} (w task_id message : String) (base : ℕ) (fresh : Fresh) (s : ServiceState V)
    (r : Answer V × ServiceState V) (m : TaskMutation V) (x : Option (LeadTask V))
    → Effect w task_id message base fresh s r
    → r.0 ≡ inr (m, x)
    → find_mutation task_id message r.1.requests ≡ some m
known_after w task_id message base fresh s _ m x (repeated k known) h =
    known ∙ ap some (answered _ _ _ _ h)
known_after w task_id message base fresh s _ m x (refused why t new tasks same) h =
    absurd (ground arith)
known_after w task_id message base fresh s _ m x (unchanged task k t new found at target same known)
      h =
    known.1 ∙ ap some (answered _ _ _ _ h)
known_after w task_id message base fresh s _ m x
      (updated task up k t new found at target made known) h =
    known.1 ∙ ap some (answered _ _ _ _ h)

module _ {V N : Type 0} ⦃e : Eq V⦄ (p : Values V N) (repr : V → String) (w : String)
    (rules : Option (Dict String (BusinessRule V)))
    (analyze : String → ℕ → Repository V → ArtifactReuseContext) where
  mutate-known :
      (task_id message : String) (base : ℕ) (patch : TaskPatch V)
      (reuse : Option ArtifactReuseContext) (fresh : Fresh) (s : ServiceState V)
      (m : TaskMutation V)
      → find_mutation task_id message s.requests ≡ some m
      → mutate p repr w rules analyze task_id base message patch reuse fresh s
        ≡ (inr (m, get_task w (some task_id) none s.tasks), s)
  unfolding mutate
  mutate-known task_id message base patch reuse fresh s m known = rw (known, mutate) refl

  -- After a mutation that was returned for a message of a task, where every known request led to
  -- a mutation, a second call for that task and message, with whatever version, patch and
  -- identifiers, returns the same mutation with the task as it is, and changes nothing.
  pub mutate-repeats :
      (task_id message : String) (base base' : ℕ) (patch patch' : TaskPatch V)
      (reuse reuse' : Option ArtifactReuseContext) (fresh fresh' : Fresh) (s : ServiceState V)
      (m : TaskMutation V) (x : Option (LeadTask V))
      → IsLinked s.requests
      → (mutate p repr w rules analyze task_id base message patch reuse fresh s).0 ≡ inr (m, x)
      → let t = (mutate p repr w rules analyze task_id base message patch reuse fresh s).1 in
        mutate p repr w rules analyze task_id base' message patch' reuse' fresh' t
        ≡ (inr (m, get_task w (some task_id) none t.tasks), t)
  mutate-repeats task_id message base base' patch patch' reuse reuse' fresh fresh' s m x linked h =
      let first = mutate p repr w rules analyze task_id base message patch reuse fresh s in
      mutate-known task_id message base' patch' reuse' fresh' first.1 m (
        known_after w task_id message base fresh s first m x
          (mutate-Effect p repr w rules analyze task_id message base patch reuse fresh s linked) h)

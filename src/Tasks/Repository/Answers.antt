-- ===== src/Tasks/Repository/Answers.antt =====
-- What `apply_patch` leaves for a request that it answers with a task.
use enterprise_sales_intelli.Prelude.{
  ℕ, ◌+◌, ◌≡◌, refl, sym, ap, ◌∙◌, String, Option, none, some, string_eq, pair_eq, some_inj,
}
use enterprise_sales_intelli.Tasks.Models.{LeadTask, TaskPatch, TaskVersion}
use enterprise_sales_intelli.Tasks.Repository.{
  Repository, Stamp, from_task, recall, given, get_task, get_version, commit_patch, apply_patch,
  Result, ok, err, task_from_version, update_task,
}
use enterprise_sales_intelli.Tasks.Repository.Saves.{IsConsistent, Grows}
use enterprise_sales_intelli.Tasks.Repository.Steps.{get_task_found}
use enterprise_sales_intelli.Tasks.Repository.Patches.{
  Outcome, unknown, replayed, missing, stale, patched_now,
}
use enterprise_sales_intelli.Tasks.Repository.Commits.{
  result, origin, commit_patch-get_version, recall-remember, recall_named,
}
use enterprise_sales_intelli.Mutation.Preview.{apply_patch_pure}

abbrev answer_of : {A : Type 0} → Result A → Option A
answer_of (ok a) = some a
answer_of (err e) = none

ok_inj : {A : Type 0} {a b : A} → ok a ≡ ok b → a ≡ b
ok_inj h = some_inj (ap answer_of h)

module _ {V : Type 0} where
  -- The request is known, with a recorded version that has the task's number and fields.
  pub record Answered (id : String) (message : Option String) (saved : LeadTask V)
      (t : Repository V) : Type 0 where
    pub number : ℕ
    pub version : TaskVersion V
    pub asked : recall id message t.mutation_requests ≡ some number
    pub found : get_version id number t ≡ some version
    pub same_version : version.version ≡ saved.version
    pub same_requirements : version.requirements ≡ saved.requirements

  module _ (w id : String) (patch : TaskPatch V) (base : Option ℕ)
      (mutation message : Option String) (stamp : Stamp) where
    pub answers :
        (t : Repository V) (head saved : LeadTask V)
        → get_task w (some id) none t ≡ some head
        → Answered id message saved t
        → (y : LeadTask V) × (apply_patch w id patch base mutation message stamp t ≡ (ok y, t))
          × (y.version ≡ saved.version)
          × (y.requirements ≡ saved.requirements)
    unfolding apply_patch
    answers t head saved found a = (
      task_from_version head a.version,
      rw (found, a.asked, a.found, apply_patch) refl,
      a.same_version,
      a.same_requirements,
    )

    pub by-Outcome :
        (name : String) (s : Repository V) (saved : LeadTask V)
        → given message ≡ some name
        → IsConsistent s
        → (out : _) → Outcome w id patch base mutation message stamp s out
        → out.0 ≡ ok saved
        → Answered id message saved out.1
    unfolding commit_patch update_task apply_patch_pure
    by-Outcome name s saved e c _ (unknown h) o = absurd (cc)
    by-Outcome name s saved e c _ (missing n h k) o = absurd (cc)
    by-Outcome name s saved e c _ (stale x n h k b d) o = absurd (cc)
    by-Outcome name s saved e c _ (replayed x n v h asked found) o = record {
      number = n;
      version = v;
      asked = asked;
      found = found;
      same_version = ap (λ (y : LeadTask V). y.version) (ok_inj o);
      same_requirements = ap (λ (y : LeadTask V). y.requirements) (ok_inj o);
    }
    by-Outcome name s saved e c _ (patched_now x h fresh b) o = record {
      number = x.version + 1;
      version =
          from_task (result id x patch mutation message stamp s)
            (origin id x patch mutation message stamp s) stamp;
      asked = recall-remember id message s.mutation_requests (x.version + 1) name e;
      found =
          commit_patch-get_version id x patch mutation message stamp s c
            (get_task_found w id s x h).0 fresh;
      same_version = ap (λ (y : LeadTask V). y.version) (ok_inj o);
      same_requirements = ap (λ (y : LeadTask V). y.requirements) (ok_inj o);
    }

  pub Answered-later :
      (id name : String) (message : Option String) (saved : LeadTask V) (s t : Repository V)
      → given message ≡ some name
      → Grows s t
      → Answered id message saved s
      → Answered id message saved t
  Answered-later id name message saved s t e g a = record {
    number = a.number;
    version = a.version;
    asked =
        recall_named id message t.mutation_requests name e
        ∙ g.requests_kept id name a.number
            (sym (recall_named id message s.mutation_requests name e) ∙ a.asked);
    found = g.versions_kept id a.number a.version a.found;
    same_version = a.same_version;
    same_requirements = a.same_requirements;
  }

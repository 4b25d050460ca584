-- ===== src/Tasks/Repository/Patching.antt =====
-- What a client of `apply_patch` may rely on: history, retries and lost updates.
use enterprise_sales_intelli.Prelude.{
  ℕ, ◌+◌, ◌≡◌, sym, ap, String, false, Option, none, some, string_eq, pair_eq, arith, eqb, eqb_iff,
}
use enterprise_sales_intelli.Prelude.Dict.{lookup-insert}
use enterprise_sales_intelli.Tasks.Models.{LeadTask, TaskPatch, TaskVersion}
use enterprise_sales_intelli.Tasks.Repository.{
  Repository, Stamp, recall, given, empty, get_task, get_version, commit_patch, apply_patch, ok,
  err, version_conflict, update_task,
}
use enterprise_sales_intelli.Tasks.Repository.Saves.{IsConsistent}
use enterprise_sales_intelli.Tasks.Repository.Steps.{get_task_found}
use enterprise_sales_intelli.Tasks.Repository.Patches.{
  Outcome, unknown, replayed, missing, stale, patched_now, apply_patch-Outcome,
  assert_current-found,
}
use enterprise_sales_intelli.Tasks.Repository.Commits.{result, next}
use enterprise_sales_intelli.Tasks.Repository.Histories.{
  Reach, Reach-Keeps, apply_patch-Keeps, empty-IsConsistent,
}
use enterprise_sales_intelli.Mutation.Preview.{apply_patch_pure}
use enterprise_sales_intelli.Tasks.Repository.Answers.{answers, by-Outcome, Answered-later}

module _ {V : Type 0} where
  -- After any calls on a new repository, with unused identifiers for new tasks and no task written
  -- back below its stored version: tasks stand under their identifiers, no recorded version is
  -- newer than its task, and each request that was patched points to a recorded version.
  pub history-IsConsistent : {s : Repository V} → Reach empty s → IsConsistent s
  history-IsConsistent r = (Reach-Keeps empty-IsConsistent r).0

  -- In a consistent repository a recorded version is never changed or removed by later calls.
  pub history-keeps_version :
      (s t : Repository V) (id : String) (n : ℕ) (v : TaskVersion V)
      → IsConsistent s
      → Reach s t
      → get_version id n s ≡ some v
      → get_version id n t ≡ some v
  history-keeps_version s t id n v c r h = (Reach-Keeps c r).1.versions_kept id n v h

  -- In a consistent repository, a named request that `apply_patch` has answered with a task may be
  -- sent again at any later time, with any patch and base version, while the caller can see the
  -- task: the answer has the version number and the fields of the first answer, and nothing is
  -- changed.
  pub apply_patch-retry :
      (w id name : String) (p q : TaskPatch V) (base later_base : Option ℕ)
      (mutation later_mutation message : Option String) (stamp later : Stamp) (s t : Repository V)
      (saved head : LeadTask V)
      → given message ≡ some name
      → IsConsistent s
      → (apply_patch w id p base mutation message stamp s).0 ≡ ok saved
      → Reach (apply_patch w id p base mutation message stamp s).1 t
      → get_task w (some id) none t ≡ some head
      → (y : LeadTask V) × (apply_patch w id q later_base later_mutation message later t
          ≡ (ok y, t))
        × (y.version ≡ saved.version)
        × (y.requirements ≡ saved.requirements)
  apply_patch-retry w id name p q base later_base mutation later_mutation message stamp later s t
        saved head e c o r found =
      let done = apply_patch-Outcome w id p base mutation message stamp s in
      let first = by-Outcome w id p base mutation message stamp name s saved e c _ done o in
      let (d, g) = apply_patch-Keeps c w id p base mutation message stamp in
      let a = Answered-later id name message saved _ t e (Reach-Keeps d r).1 first in
      answers w id q later_base later_mutation message later t head saved found a

  -- After a patch the task is found in its workspace, as it was saved.
  next-get_task :
      (w id : String) (x : LeadTask V) (patch : TaskPatch V) (mutation message : Option String)
      (stamp : Stamp) (s : Repository V)
      → IsConsistent s
      → get_task w (some id) none s ≡ some x
      → get_task w (some id) none (next id x patch mutation message stamp s)
        ≡ some (result id x patch mutation message stamp s)
  unfolding get_task commit_patch update_task apply_patch_pure
  next-get_task w id x patch mutation message stamp s c h =
      let (found, here) = get_task_found w id s x h in
      ground (
        arith,
        c.named id x found,
        here,
        lookup-insert id x.task_id (result id x patch mutation message stamp s) s.tasks,
        string_eq.equals_iff x.task_id id,
        string_eq.equals_iff x.workspace_id w,
      )

  conflict_after :
      (w id : String) (p q : TaskPatch V) (n : ℕ)
      (mutation later_mutation message other : Option String) (stamp later : Stamp)
      (s : Repository V) (saved : LeadTask V)
      → IsConsistent s
      → recall id message s.mutation_requests ≡ none
      → (out : _) → Outcome w id p (some n) mutation message stamp s out
      → out.0 ≡ ok saved
      → recall id other out.1.mutation_requests ≡ none
      → apply_patch w id q (some n) later_mutation other later out.1
        ≡ (err (version_conflict id n (n + 1)), out.1)
  unfolding apply_patch apply_patch_pure
  conflict_after w id p q n mu lm m other st later s saved c fresh _ (unknown h) o u = absurd (cc)
  conflict_after w id p q n mu lm m other st later s saved c fresh _ (missing k a l) o u =
      absurd (cc)
  conflict_after w id p q n mu lm m other st later s saved c fresh _ (stale x k h a b d) o u =
      absurd (cc)
  conflict_after w id p q n mu lm m other st later s saved c fresh _ (replayed x k v h a f) o u =
      absurd (cc)
  conflict_after w id p q n mu lm m other st later s saved c fresh _ (patched_now x h a b) o
        unseen =
      let found = next-get_task w id x p mu m st s c h in
      let t = next id x p mu m st s in
      let checked =
        assert_current-found w id q (some n) lm other later t (result id x p mu m st s) n found in
      let newer : eqb (x.version + 1) n ≡ false = ground (arith, eqb_iff (x.version + 1) n) in
      rw (found, unseen, checked, newer, apply_patch)
        (ap (λ (k : ℕ). (err (version_conflict id n (k + 1)), t)) (sym b))

  -- In a consistent repository, two patches made from one base version, by requests that it does
  -- not know when they come: if the first is saved, the second is refused with the version conflict
  -- and changes nothing, so no update is lost.
  pub apply_patch-conflict :
      (w id : String) (p q : TaskPatch V) (n : ℕ)
      (mutation later_mutation message other : Option String) (stamp later : Stamp)
      (s : Repository V) (saved : LeadTask V)
      → IsConsistent s
      → recall id message s.mutation_requests ≡ none
      → (apply_patch w id p (some n) mutation message stamp s).0 ≡ ok saved
      → recall id other (apply_patch w id p (some n) mutation message stamp s).1.mutation_requests
        ≡ none
      → apply_patch w id q
          (some n)
          later_mutation
          other
          later
          (apply_patch w id p (some n) mutation message stamp s).1
        ≡ (
          err (version_conflict id n (n + 1)),
          (apply_patch w id p (some n) mutation message stamp s).1,
        )
  apply_patch-conflict w id p q n mutation later_mutation message other stamp later s saved c fresh
        o unseen =
      conflict_after w id p q n mutation later_mutation message other stamp later s saved c fresh _
        (apply_patch-Outcome w id p (some n) mutation message stamp s) o unseen

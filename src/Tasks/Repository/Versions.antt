-- ===== src/Tasks/Repository/Versions.antt =====
-- The lists of versions: what `record_version` and a write of the dictionary do to `get_version`.
use enterprise_sales_intelli.Prelude.{
  ℕ, ◌≡◌, refl, ◌⊎◌, String, Option, none, some, List, [], ◌∷◌, ◌++◌, any, eqb, eqb_iff, get_or,
  is_some, ◌==◌, string_eq, if◌then◌else◌, arith,
}
use enterprise_sales_intelli.Prelude.Dict.{Dict, lookup, insert, lookup-insert}
use enterprise_sales_intelli.Tasks.Models.{LeadTask, TaskVersion}
use enterprise_sales_intelli.Tasks.Repository.{
  Repository, Stamp, Provenance, from_task, find_version, record_version, get_version,
}

module _ {V : Type 0} where
  find_version-append :
      (n : ℕ) (vs : List (TaskVersion V)) (w : TaskVersion V)
      → find_version n (vs ++ (w ∷ [])) ≡ (
          if is_some (find_version n vs)
          then find_version n vs
          else if eqb w.version n
          then some w
          else none)
  unfolding find_version
  find_version-append n [] w = refl
  find_version-append n (v ∷ vs) w = ground (arith, find_version-append n vs w)

  any-find_version :
      (n : ℕ) (vs : List (TaskVersion V))
      → any (λ (v : TaskVersion V). eqb v.version n) vs ≡ is_some (find_version n vs)
  unfolding find_version
  any-find_version n [] = refl
  any-find_version n (v ∷ vs) = ground (arith, any-find_version n vs)

  module _ (u : LeadTask V) (p : Provenance) (st : Stamp) (vs : List (TaskVersion V)) where
    pub find_version-record_version_kept :
        (n : ℕ) {v : TaskVersion V}
        → find_version n vs ≡ some v
        → find_version n (record_version u p st vs) ≡ some v
    unfolding record_version
    find_version-record_version_kept n h =
        ground (arith, find_version-append n vs (from_task u p st))

    -- The version of the task is found once it is recorded, and is the task's if it was not there.
    pub find_version-record_version_self :
        find_version u.version vs ≡ none
        → find_version u.version (record_version u p st vs) ≡ some (from_task u p st)
    unfolding record_version
    find_version-record_version_self h = ground (
      arith,
      any-find_version u.version vs,
      find_version-append u.version vs (from_task u p st),
      eqb_iff u.version u.version,
    )

    -- A version found after the record is the task's own, or was there.
    pub find_version-record_version_cases :
        (n : ℕ) {v : TaskVersion V}
        → find_version n (record_version u p st vs) ≡ some v
        → (n ≡ u.version) ⊎ (find_version n vs ≡ some v)
    unfolding record_version
    find_version-record_version_cases n h =
        ground (arith, find_version-append n vs (from_task u p st), eqb_iff u.version n)

  -- `get_version` on the dictionary alone.
  abbrev pub version_in : String → ℕ → Dict String (List (TaskVersion V)) → Option (TaskVersion V)
  version_in id n d = find_version n (get_or (lookup id d) [])

  pub get_version_lem :
      (id : String) (n : ℕ) (s : Repository V) → get_version id n s ≡ version_in id n s.versions
  unfolding get_version
  get_version_lem id n s = refl

  pub version_in-insert :
      (id k : String) (n : ℕ) (vs : List (TaskVersion V)) (d : Dict String (List (TaskVersion V)))
      → version_in id n (insert k vs d) ≡ (if k == id then find_version n vs else version_in id n d)
  version_in-insert id k n vs d = ground (arith, lookup-insert id k vs d)

-- ===== src/Runtime/Leases/Invariant.antt =====
-- The invariant of the coordinator's four dictionaries, and the updates that keep it.
use enterprise_sales_intelli.Prelude.{
  ◌≤◌, String, ◌≡◌, refl, sym, ◌∙◌, ap, subst, inl, inr, none, some, string_eq, pair_eq, beq-cases,
  arith, none_of_absent,
}
use enterprise_sales_intelli.Prelude.Dict.{
  lookup, insert, erase, lookup-insert, lookup-insert_cases, lookup-erase_cases,
}
use enterprise_sales_intelli.Runtime.Models.{ExecutionRun}
use enterprise_sales_intelli.Runtime.Leases.{Key, Coordinator, thread_of, fence_of}

module _ {P : Type 0} where
  -- The run that an entry of `active` or `requests` points to.
  pub record Owns (s : Coordinator P) (key : Key) (run_id : String) : Type 0 where
    pub run : ExecutionRun P
    pub found : lookup run_id s.runs ≡ some run
    pub threaded : thread_of run ≡ key
    pub fenced : run.fence_token ≡ fence_of key s

  pub record Requested (s : Coordinator P) (request : Key) (run_id : String) : Type 0 where
    pub run : ExecutionRun P
    pub found : lookup run_id s.runs ≡ some run
    pub workspace : run.workspace_id ≡ request.0

  -- Runs are stored under their own identifiers, none of them empty. The active run of a thread
  -- carries the newest fence token of the thread, and no two runs of a thread carry the same.
  pub record IsValid (s : Coordinator P) : Type 0 where
    pub named : (r : String) (x : ExecutionRun P) → lookup r s.runs ≡ some x → x.run_id ≡ r
    pub unnamed : lookup "" s.runs ≡ none
    pub bounded :
        (r : String) (x : ExecutionRun P)
        → lookup r s.runs ≡ some x
        → x.fence_token ≤ fence_of (thread_of x) s
    pub distinct :
        (r q : String) (x y : ExecutionRun P)
        → lookup r s.runs ≡ some x
        → lookup q s.runs ≡ some y
        → thread_of x ≡ thread_of y
        → x.fence_token ≡ y.fence_token
        → r ≡ q
    pub owned : (k : Key) (r : String) → lookup k s.active ≡ some r → Owns s k r
    pub requested : (k : Key) (r : String) → lookup k s.requests ≡ some r → Requested s k r

  -- What a write to a stored run keeps: its place, and its fence token.
  pub record Similar (x y : ExecutionRun P) : Type 0 where
    pub named : x.run_id ≡ y.run_id
    pub threaded : thread_of x ≡ thread_of y
    pub fenced : x.fence_token ≡ y.fence_token

  pub Similar-refl : (x : ExecutionRun P) → Similar x x
  Similar-refl x = record { named = refl; threaded = refl; fenced = refl }

  abbrev pub put : String → ExecutionRun P → Coordinator P → Coordinator P
  put r x s = record s { runs = insert r x s.runs }

  module _ (s : Coordinator P) (r : String) (x y : ExecutionRun P)
      (found : lookup r s.runs ≡ some x) (similar : Similar x y) where
    pub put_back :
        (q : String) (z : ExecutionRun P)
        → lookup q (put r y s).runs ≡ some z
        → (w : ExecutionRun P) × (lookup q s.runs ≡ some w) × Similar w z
    put_back q z h = elim (lookup-insert_cases q r y s.runs h) [
      | inl (same, new) ↦
          (x, subst (λ k. lookup k s.runs ≡ some x) same found, subst (Similar x) new similar)
      | inr (other, old) ↦ (z, old, Similar-refl z)
    ]

    pub put_forth :
        (q : String) (w : ExecutionRun P)
        → lookup q s.runs ≡ some w
        → (z : ExecutionRun P) × (lookup q (put r y s).runs ≡ some z) × Similar w z
    put_forth q w h = elim (beq-cases r q) [
      | inl (t, same) ↦
          (y, ground (arith, lookup-insert q r y s.runs), subst (λ v. Similar v y) (cc) similar)
      | inr (f, other) ↦ (w, ground (arith, lookup-insert q r y s.runs), Similar-refl w)
    ]

    pub put-IsValid : IsValid s → IsValid (put r y s)
    put-IsValid v = record {
      named = λ q z h. let (w, old, k) = put_back q z h in sym k.named ∙ v.named q w old;
      unnamed = none_of_absent _ λ z h. let (w, old, k) = put_back "" z h in cc (old, v.unnamed);
      bounded = λ q z h.
          let (w, old, k) = put_back q z h in
          subst (λ t. z.fence_token ≤ fence_of t s) k.threaded
            (subst (λ f. f ≤ fence_of (thread_of w) s) k.fenced (v.bounded q w old));
      distinct = λ q p z u h h' threads fences.
          let (w, old, k) = put_back q z h in
          let (w', old', k') = put_back p u h' in
          v.distinct q p w w' old old' (k.threaded ∙ threads ∙ sym k'.threaded)
            (k.fenced ∙ fences ∙ sym k'.fenced);
      owned = λ k q h.
          let o = v.owned k q h in
          let (z, new, sim) = put_forth q o.run o.found in
          record {
            run = z;
            found = new;
            threaded = sym sim.threaded ∙ o.threaded;
            fenced = sym sim.fenced ∙ o.fenced;
          };
      requested = λ k q h.
          let o = v.requested k q h in
          let (z, new, sim) = put_forth q o.run o.found in
          record {
            run = z;
            found = new;
            workspace = sym (ap (λ t. t.0) sim.threaded) ∙ o.workspace;
          };
    }

  -- Removing an entry of `active` keeps the invariant.
  abbrev pub vacate : Key → Coordinator P → Coordinator P
  vacate key s = record s { active = erase key s.active }

  pub vacate-IsValid : (key : Key) (s : Coordinator P) → IsValid s → IsValid (vacate key s)
  vacate-IsValid key s v = record {
    named = v.named;
    unnamed = v.unnamed;
    bounded = v.bounded;
    distinct = v.distinct;
    owned = λ k r h.
        let o = v.owned k r (lookup-erase_cases k key s.active h).1 in
        record { run = o.run; found = o.found; threaded = o.threaded; fenced = o.fenced };
    requested = λ k r h.
        let o = v.requested k r h in
        record { run = o.run; found = o.found; workspace = o.workspace };
  }

-- ===== src/Rules/Conflicts/Ranges.antt =====
-- Two orders on numbers that one value meets have ranges with a number in common.
use enterprise_sales_intelli.Prelude.{
  Bool, true, false, not, ◌&&◌, ◌||◌, Option, none, some, ◌≡◌, inl, inr, refl, sym, ap, ◌∙◌, subst,
  string_eq, if◌then◌else◌, is_some, arith, Option-cases, some_inj,
}
use enterprise_sales_intelli.Prelude.Keys.{Eq}
use enterprise_sales_intelli.Rules.Models.{
  RuleOperator, eq_op, gt_op, gte_op, lt_op, lte_op, operator_eq,
}
use enterprise_sales_intelli.Rules.Values.{Values, IsPython, IsExact}
use enterprise_sales_intelli.Criteria.Evaluator.{matches}
use enterprise_sales_intelli.Rules.Conflicts.{
  Interval, is_lower, is_upper, is_equal, is_range, interval, higher, smaller, is_empty,
}

abbrev pub is_strict : RuleOperator → Bool
is_strict gt_op = true
is_strict lt_op = true
is_strict _ = false

pub is_equal-of : (o : RuleOperator) → is_equal o ≡ true → o ≡ eq_op
is_equal-of eq_op h = refl
is_equal-of _ h = absurd (ground arith)

refused_of : (b : Bool) → some (not b) ≡ some true → b ≡ false
refused_of true h = absurd (ground arith)
refused_of false h = refl

module _ {V N : Type 0} ⦃e : Eq V⦄ (p : Values V N) (law : IsPython p) where
  -- How a number meets a bound of one of the four orders.
  abbrev Bounded : RuleOperator → N → N → Type 0
  Bounded o a n =
      ((if is_lower o then p.leq a n else p.leq n a) ≡ true)
      × (is_strict o ≡ true → (if is_lower o then p.leq n a else p.leq a n) ≡ false)

  number_too :
      (o o' : Option N) (a : N) → o ≡ some a → is_some o ≡ is_some o' → (n : N) × (o' ≡ some n)
  number_too o none a h alike = absurd (ground (arith, h, alike))
  number_too o (some n) a h alike = (n, refl)

  -- A value that matches an order with a number is a number, within the bound.
  matched_order :
      (o : RuleOperator) (x v : V) (a : N)
      → (is_lower o || is_upper o) ≡ true
      → p.number v ≡ some a
      → matches p x o v ≡ some true
      → (n : N) × (p.number x ≡ some n) × Bounded o a n
  unfolding matches
  matched_order gt_op x v a order bound h =
      let h' : p.less v x ≡ some true = ground arith in
      let (n, found) = number_too (p.number v) (p.number x) a bound (law.less_alike v x true h') in
      let above = refused_of (p.leq n a) (sym (law.less_number v x a n bound found) ∙ h') in
      (n, found, (law.ordered.total n a above, λ strict. above))
  matched_order gte_op x v a order bound h =
      let h' : p.at_most v x ≡ some true = ground arith in
      let (n, found) =
        number_too (p.number v) (p.number x) a bound (law.at_most_alike v x true h') in
      let le = some_inj (sym (law.at_most_number v x a n bound found) ∙ h') in
      (n, found, (le, λ strict. absurd (ground arith)))
  matched_order lt_op x v a order bound h =
      let h' : p.less x v ≡ some true = ground arith in
      let (n, found) =
        number_too (p.number v) (p.number x) a bound (sym (law.less_alike x v true h')) in
      let below = refused_of (p.leq a n) (sym (law.less_number x v n a found bound) ∙ h') in
      (n, found, (law.ordered.total a n below, λ strict. below))
  matched_order lte_op x v a order bound h =
      let h' : p.at_most x v ≡ some true = ground arith in
      let (n, found) =
        number_too (p.number v) (p.number x) a bound (sym (law.at_most_alike x v true h')) in
      let le = some_inj (sym (law.at_most_number x v n a found bound) ∙ h') in
      (n, found, (le, λ strict. absurd (ground arith)))
  matched_order _ x v a order bound h = absurd (ground arith)

  abbrev pub ends : RuleOperator → N → Interval N
  ends o a = record {
    lower = if is_lower o || is_equal o then some a else none;
    lower_inc = not (is_lower o && is_strict o);
    upper = if is_upper o || is_equal o then some a else none;
    upper_inc = not (is_upper o && is_strict o);
  }

  pub interval-ends :
      (o : RuleOperator) (v : V) (a : N)
      → is_range o ≡ true
      → IsExact p v
      → p.number v ≡ some a
      → interval p o v ≡ some (ends o a)
  unfolding interval
  interval-ends gt_op v a h exact found = rw (exact a found, interval) refl
  interval-ends gte_op v a h exact found = rw (exact a found, interval) refl
  interval-ends lt_op v a h exact found = rw (exact a found, interval) refl
  interval-ends lte_op v a h exact found = rw (exact a found, interval) refl
  interval-ends eq_op v a h exact found = rw (found, exact a found, interval) refl
  interval-ends _ v a h exact found = absurd (ground arith)

  -- A number that meets two orders is in both ranges.
  orders_meet :
      (l r : RuleOperator) (a b n : N)
      → is_equal l ≡ false
      → is_equal r ≡ false
      → Bounded l a n
      → Bounded r b n
      → is_empty p (ends l a) (ends r b) ≡ false
  unfolding is_empty higher smaller
  orders_meet l r a b n hl hr ha hb = ground (
    arith,
    ha.0,
    ha.1,
    hb.0,
    hb.1,
    law.ordered.trans a n b,
    law.ordered.trans b n a,
    law.ordered.trans a b n,
    law.ordered.trans b a n,
    law.ordered.trans n a b,
    law.ordered.trans n b a,
  )

  -- The same for a range of one number, and an order that is not strict.
  equal_meets :
      (r : RuleOperator) (b n : N)
      → is_equal r ≡ false
      → is_strict r ≡ false
      → Bounded r b n
      → (is_empty p (ends eq_op n) (ends r b) ≡ false)
        × (is_empty p (ends r b) (ends eq_op n) ≡ false)
  unfolding is_empty higher smaller
  equal_meets r b n hr weak hb =
      (ground (arith, hb.0, law.ordered.total n n), ground (arith, hb.0, law.ordered.total n n))

  number_refl : (n : N) → p.leq n n ≡ true
  number_refl n = ground (arith, law.ordered.total n n)

  abbrev endless : Interval N
  endless = record { lower = none; lower_inc = true; upper = none; upper_inc = true }

  -- A range of one number, and none for what is no number, meets itself.
  pub equals_meet : (v : V) (i : Interval N) → interval p eq_op v ≡ some i → is_empty p i i ≡ false
  unfolding interval is_empty higher smaller
  equals_meet v i h = elim (Option-cases (p.number v)) [
    | inl no_number ↦ let same : i ≡ endless = ground arith in rw same refl
    | inr (n, found) ↦ elim (Option-cases (p.as_float v)) [
      | inl raised ↦ absurd (ground arith)
      | inr (m, taken) ↦
          let same : i ≡ ends eq_op m = ground arith in rw same (ground (arith, number_refl m))
    ]
  ]

  number_of : (o : Option N) → is_some o ≡ true → (n : N) × (o ≡ some n)
  number_of none h = absurd (ground arith)
  number_of (some n) h = (n, refl)

  -- An equality and an order that one value matches have ranges that meet.
  pub equal_order :
      (l r : RuleOperator) (v w x : V) (i j : Interval N)
      → is_equal l ≡ true
      → is_equal r ≡ false
      → is_range r ≡ true
      → is_strict r ≡ false
      → is_some (p.number w) ≡ true
      → IsExact p v
      → IsExact p w
      → interval p l v ≡ some i
      → interval p r w ≡ some j
      → matches p x l v ≡ some true
      → matches p x r w ≡ some true
      → (is_empty p i j ≡ false) × (is_empty p j i ≡ false)
  unfolding matches
  equal_order l r v w x i j hl hr hrange weak numeric exact_v exact_w li rj ml mr =
      let same_op = is_equal-of l hl in
      let same : x ≡ v =
        (e.equals_iff x v).0 (some_inj (subst (λ o. matches p x o v ≡ some true) same_op ml)) in
      let (b, bound) = number_of (p.number w) numeric in
      let (n, found, within) = matched_order r x w b (ground arith) bound mr in
      let found' : p.number v ≡ some n = ap p.number (sym same) ∙ found in
      let i_is : i ≡ ends eq_op n =
        some_inj (
          sym li
          ∙ ap (λ o. interval p o v) same_op
          ∙ interval-ends eq_op v n refl exact_v found') in
      let j_is : j ≡ ends r b = some_inj (sym rj ∙ interval-ends r w b hrange exact_w bound) in
      rw (i_is, j_is) (equal_meets r b n hr weak within)

  pub orders_meet_at :
      (l r : RuleOperator) (v w x : V) (i j : Interval N)
      → is_equal l ≡ false
      → is_equal r ≡ false
      → is_range l ≡ true
      → is_range r ≡ true
      → is_some (p.number v) ≡ true
      → is_some (p.number w) ≡ true
      → IsExact p v
      → IsExact p w
      → interval p l v ≡ some i
      → interval p r w ≡ some j
      → matches p x l v ≡ some true
      → matches p x r w ≡ some true
      → is_empty p i j ≡ false
  orders_meet_at l r v w x i j hl hr lrange rrange numeric_l numeric_r exact_v exact_w li rj ml mr =
      let (a, bound) = number_of (p.number v) numeric_l in
      let (b, bound') = number_of (p.number w) numeric_r in
      let (n, found, within) = matched_order l x v a (ground arith) bound ml in
      let (n', found', within') = matched_order r x w b (ground arith) bound' mr in
      let same : n' ≡ n = some_inj (sym found' ∙ found) in
      let i_is : i ≡ ends l a = some_inj (sym li ∙ interval-ends l v a lrange exact_v bound) in
      let j_is : j ≡ ends r b = some_inj (sym rj ∙ interval-ends r w b rrange exact_w bound') in
      rw (i_is, j_is) (orders_meet l r a b n hl hr within (subst (Bounded r b) same within'))

-- ===== src/Grants/Groups.antt =====
-- The row filter groups that the schema lets through.
use multi_tenant_data_chat_p.Shared.{
  ℕ, suc, ◌≡◌, refl, sym, ap, subst, ◌∙◌, Bool, true, false, not, ◌||◌, List, [], ◌∷◌, length,
  contains, All, Result, ok, err, ok_inj, ◌>>=◌, >>=-eq-ok, raise_if-then, ◌==◌, arith,
}
use multi_tenant_data_chat_p.Shared.Text.{Text, text, text_eq}
use multi_tenant_data_chat_p.Values.{str, field_value, items}
use multi_tenant_data_chat_p.Permissions.{AllowedTable}
use multi_tenant_data_chat_p.Sql.Sqlglot.{Sqlglot}
use multi_tenant_data_chat_p.Sql.RowFilter.Rules.{
  Fault, is_among, is_text, combine_from, combine_expressions, build_rule_expression, build_rules,
  group_rules, build_filter_group_expression,
}
use multi_tenant_data_chat_p.Grants.Schemas.{
  RowFilterRule, RowFilterGroup, match_invalid, validate_group, dump_rule, dump_rules, dump_group,
}
use multi_tenant_data_chat_p.Grants.Filters.{rule_of, IsKnown, IsUsable, rule-eq-err, rule_builds}

module _ {Statement Node Condition : Type 0} (g : Sqlglot Statement Node Condition)
    (allowed_table : AllowedTable) (table_reference : Text) (tenant_id user_id : ℕ) where
  -- The loop over the rules.
  rules-eq-err :
      (rules : List RowFilterRule) {e : Fault}
      → build_rules g allowed_table table_reference tenant_id user_id (items (dump_rules rules))
        ≡ err e
      → IsKnown g allowed_table table_reference tenant_id user_id e
  unfolding build_rules dump_rules rule_of
  rules-eq-err [] h = cc
  rules-eq-err (rule ∷ rules) {e} h =
      first
        (build_rule_expression g allowed_table table_reference tenant_id user_id (dump_rule rule))
        refl
        (build_rules g allowed_table table_reference tenant_id user_id (items (dump_rules rules)))
        (λ k. rules-eq-err rules k) h
    where
      same :
          {f : Fault}
          → ◌≡◌ {A = Result Fault (List Condition)} (err f) (err e)
          → ◌≡◌ {A = Result Fault Condition} (err f) (err e)
      same k = cc k

      first :
          (o : Result Fault Condition)
          → build_rule_expression g allowed_table table_reference tenant_id user_id (dump_rule rule)
            ≡ o
          → (rest : Result Fault (List Condition))
          → (rest ≡ err e → IsKnown g allowed_table table_reference tenant_id user_id e)
          → (o >>= λ c. rest >>= λ cs. ok (c ∷ cs)) ≡ err e
          → IsKnown g allowed_table table_reference tenant_id user_id e
      first (err f) q rest ih k =
          rule-eq-err g allowed_table table_reference tenant_id user_id rule.column_id rule.operator
            rule.value_source rule.value (q ∙ same k)
      first (ok c) q (err f) ih k = ih (cc k)
      first (ok c) q (ok cs) ih k = cc

  rules_build :
      (rules : List RowFilterRule)
      → All (IsUsable g allowed_table table_reference tenant_id user_id) rules
      → (cs : List Condition) × (build_rules g allowed_table table_reference tenant_id user_id
            (items (dump_rules rules))
          ≡ ok cs)
        × (length cs ≡ length rules)
  unfolding build_rules dump_rules
  rules_build [] u = ([], refl, refl)
  rules_build (rule ∷ rules) u =
      let (c, q) = rule_builds g allowed_table table_reference tenant_id user_id rule u.0 in
      let (cs, r, n) = rules_build rules u.1 in (c ∷ cs, rw q (rw r refl), ap suc n)

  rules_length :
      (rules : List RowFilterRule) {cs : List Condition}
      → build_rules g allowed_table table_reference tenant_id user_id (items (dump_rules rules))
        ≡ ok cs
      → length cs ≡ length rules
  unfolding build_rules dump_rules
  rules_length [] h = ap length (sym (ok_inj h))
  rules_length (rule ∷ rules) {cs} h =
      let (c, built, later) =
        >>=-eq-ok
          (build_rule_expression g allowed_table table_reference tenant_id user_id (dump_rule rule))
          (λ c.
            build_rules g allowed_table table_reference tenant_id user_id (items (dump_rules rules))
            >>= λ cs. ok (c ∷ cs))
          h in
      let (rest, q, last) =
        >>=-eq-ok
          (build_rules g allowed_table table_reference tenant_id user_id (items (dump_rules rules)))
          (λ cs. ok (c ∷ cs)) later in
      ap length (sym (ok_inj last)) ∙ ap suc (rules_length rules q)

  -- The match of an accepted group is known.
  match_known :
      (group : RowFilterGroup)
      → validate_group group ≡ ok tt
      → contains (text "all" ∷ text "any" ∷ []) group.match ≡ true
  unfolding validate_group
  match_known group accepted =
      let known =
        (raise_if-then (not (group.match == text "all" || group.match == text "any")) match_invalid
          _ accepted).0 in
      go (group.match == text "all") (group.match == text "any") known
    where
      go : (a b : Bool) → not (a || b) ≡ false → (a || (b || false)) ≡ true
      go true b h = refl
      go false true h = refl
      go false false h = cc

  combine_expressions-eq-ok :
      (match : Text) (c : Condition) (cs : List Condition)
      → contains (text "all" ∷ text "any" ∷ []) match ≡ true
      → (d : Condition) × (combine_expressions g (c ∷ cs) (str match) ≡ ok d)
  unfolding combine_expressions is_among
  combine_expressions-eq-ok match c cs known =
      (combine_from g (is_text (text "all") (str match)) c cs, rw known refl)

  group_lem :
      (match : Text) (rule : RowFilterRule) (rules : List RowFilterRule)
      → build_filter_group_expression g allowed_table table_reference tenant_id user_id
          (dump_group (record { match = match; rules = rule ∷ rules }))
        ≡ (build_rules g allowed_table table_reference tenant_id user_id
              (items (dump_rules (rule ∷ rules)))
            >>= λ cs. combine_expressions g cs (str match))
  unfolding build_filter_group_expression dump_group dump_rules field_value text_eq group_rules
  group_lem match rule rules = refl

  -- A row filter with rules that the schema has let through, stored as JSON: the condition is built if
  -- the user may use the columns of all rules and every membership test has a literal list that is
  -- not empty, and the only errors are that a column is not available and that a membership
  -- test lacks a list.
  pub build_filter_group_expression-dump_group :
      (group : RowFilterGroup) (rule : RowFilterRule) (rules : List RowFilterRule)
      → group.rules ≡ rule ∷ rules
      → validate_group group ≡ ok tt
      → (All (IsUsable g allowed_table table_reference tenant_id user_id) group.rules
          → (c : Condition) × (build_filter_group_expression g allowed_table table_reference
                tenant_id user_id
                (dump_group group)
              ≡ ok c))
        × ((e : Fault)
            → build_filter_group_expression g allowed_table table_reference tenant_id user_id
                (dump_group group)
              ≡ err e
            → IsKnown g allowed_table table_reference tenant_id user_id e)
  build_filter_group_expression-dump_group group rule rules some_rules accepted = (
    λ usable.
        let (cs, q, n) = rules_build (rule ∷ rules) (
          subst (All (IsUsable g allowed_table table_reference tenant_id user_id)) some_rules
            usable) in
        let (c, r) = combined cs n in (c, run ∙ ap after q ∙ r),
    λ e h.
        failed
          (build_rules g allowed_table table_reference tenant_id user_id
            (items (dump_rules (rule ∷ rules))))
          refl e (sym run ∙ h),
  )
    where
      after : Result Fault (List Condition) → Result Fault Condition
      after o = o >>= λ cs. combine_expressions g cs (str group.match)

      run :
          build_filter_group_expression g allowed_table table_reference tenant_id user_id
            (dump_group group)
          ≡ after (
              build_rules g allowed_table table_reference tenant_id user_id
                (items (dump_rules (rule ∷ rules))))
      run =
          ap
            (λ rs.
              build_filter_group_expression g allowed_table table_reference tenant_id user_id
                (dump_group (record { match = group.match; rules = rs })))
            some_rules
          ∙ group_lem group.match rule rules

      combined :
          (cs : List Condition)
          → length cs ≡ suc (length rules)
          → (c : Condition) × (combine_expressions g cs (str group.match) ≡ ok c)
      combined [] n = absurd (omega (arith, n))
      combined (c ∷ cs) n = combine_expressions-eq-ok group.match c cs (match_known group accepted)

      moved :
          (f e : Fault)
          → ◌≡◌ {A = Result Fault Condition} (err f) (err e)
          → ◌≡◌ {A = Result Fault (List Condition)} (err f) (err e)
      moved f e h = cc h

      failed :
          (o : Result Fault (List Condition))
          → build_rules g allowed_table table_reference tenant_id user_id
              (items (dump_rules (rule ∷ rules)))
            ≡ o
          → (e : Fault) → after o ≡ err e
          → IsKnown g allowed_table table_reference tenant_id user_id e
      failed (err f) q e h = rules-eq-err (rule ∷ rules) (q ∙ moved f e h)
      failed (ok []) q e h = absurd (omega (arith, rules_length (rule ∷ rules) q))
      failed (ok (c ∷ cs)) q e h =
          let (d, r) = combine_expressions-eq-ok group.match c cs (match_known group accepted) in
          cc (sym r ∙ h)

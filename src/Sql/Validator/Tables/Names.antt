-- ===== src/Sql/Validator/Tables/Names.antt =====
-- Under which names query_validator.py lets columns refer to a table of the statement.
use multi_tenant_data_chat_p.Shared.{
  ◌≡◌, refl, sym, ap, subst, ◌∙◌, ◌⊎◌, inl, inr, Bool, true, false, some, In, contains, is_empty,
  for_each, for_each_members, ok, ok_inj, >>=-eq-ok, raise_if-then, if◌then◌else◌,
}
use multi_tenant_data_chat_p.Shared.Text.{Text, text_eq, lower}
use multi_tenant_data_chat_p.Shared.Dict.{Dict, get, put, get-put_cases}
use multi_tenant_data_chat_p.Permissions.{AllowedTable, AllowedSchema}
use multi_tenant_data_chat_p.Sql.Sqlglot.{Sqlglot, table}
use multi_tenant_data_chat_p.Sql.Validator.Tables.{
  Referenced, add_alias, add_table, no_tables, get_cte_names, visit_table,
  collect_referenced_tables,
}
use multi_tenant_data_chat_p.Sql.Validator.Tables.Soundness.{
  Picks, extend, visit_table-eq-ok, resolve_allowed_table_sound,
}

-- The names of a table: with its schema, alone, and its alias if there is one.
abbrev pub Bears : Text → Text → AllowedTable → Text → Type 0
Bears alias q a name =
    (name ≡ lower q)
    ⊎ (name ≡ lower a.table_name)
    ⊎ ((is_empty alias ≡ false) × (name ≡ lower alias))

-- A name that finds something after a table was added is one of the table's, or found it before.
get-add_table_cases :
    (alias q : Text) (a : AllowedTable) (r : Referenced) (k : Text) (b : AllowedTable)
    → get (add_table alias (q, a) r).lookup k ≡ some b
    → (Bears alias q a k × (b ≡ a)) ⊎ (get r.lookup k ≡ some b)
unfolding add_table add_alias
get-add_table_cases alias q a r k b h = elim (named _ (is_empty alias) refl h) [
  | inl new ↦ inl new
  | inr h₁ ↦ elim (get-put_cases _ (lower a.table_name) a k h₁) [
    | inl (name, e) ↦ inl (inr (inl name), e)
    | inr h₂ ↦ elim (get-put_cases r.lookup (lower q) a k h₂) [
      | inl (name, e) ↦ inl (inl name, e)
      | inr old ↦ inr old
    ]
  ]
]
  where
    named :
        (d : Dict Text AllowedTable) (no_alias : Bool)
        → is_empty alias ≡ no_alias
        → get (if no_alias then d else put d (lower alias) a) k ≡ some b
        → (Bears alias q a k × (b ≡ a)) ⊎ (get d k ≡ some b)
    named d true e h' = inr h'
    named d false e h' = elim (get-put_cases d (lower alias) a k h') [
      | inl (name, same) ↦ inl (inr (inr (e, name)), same)
      | inr old ↦ inr old
    ]

module _ {Statement Node Condition : Type 0} (g : Sqlglot Statement Node Condition) (st : Statement)
    (allowed_schema : AllowedSchema) where
  -- Some table of the statement that is not named like a CTE bears the name, and `a` is the allowed
  -- table that it stands for.
  pub record IsNamed (name : Text) (a : AllowedTable) : Type 0 where
    pub node : Node
    pub in_statement : In node (g.find_all st (g.root st) table)
    pub no_cte : contains (get_cte_names g st) (lower (g.name st node)) ≡ false
    pub qualified_name : Text
    pub allowed : In (qualified_name, a) allowed_schema.tables
    pub picked : Picks (g.db st node) (lower (g.name st node)) qualified_name a
    pub bears : Bears (g.alias st node) qualified_name a name

  abbrev pub AreNamed : Referenced → Type 0
  AreNamed r = (k : Text) (a : AllowedTable) → get r.lookup k ≡ some a → IsNamed k a

  visit_table-AreNamed :
      (node : Node) (r r' : Referenced)
      → In node (g.find_all st (g.root st) table)
      → visit_table g st allowed_schema (get_cte_names g st) node r ≡ ok r'
      → AreNamed r
      → AreNamed r'
  visit_table-AreNamed node r r' i h before =
      let (o, found, e) = visit_table-eq-ok g st allowed_schema (get_cte_names g st) node r r' h in
      elim (resolve_allowed_table_sound g st allowed_schema (get_cte_names g st) node o found) [
        | inl (_, nothing) ↦
            subst AreNamed (sym (e ∙ ap (extend g st allowed_schema node r) nothing)) before
        | inr (m, is_m, j, p, outside) ↦
            subst AreNamed (sym (e ∙ ap (extend g st allowed_schema node r) is_m)) (λ k a k_finds.
              elim (get-add_table_cases (g.alias st node) m.0 m.1 r k a k_finds) [
                | inr old ↦ before k a old
                | inl (name, same) ↦ subst (IsNamed k) (sym same) (record {
                  node = node;
                  in_statement = i;
                  no_cte = outside;
                  qualified_name = m.0;
                  allowed = j;
                  picked = p;
                  bears = name;
                })
              ])
      ]

  pub collect_referenced_tables-AreNamed :
      (tables : Referenced)
      → collect_referenced_tables g st allowed_schema ≡ ok tables
      → AreNamed tables
  unfolding collect_referenced_tables get
  collect_referenced_tables-AreNamed tables h =
      let body = visit_table g st allowed_schema (get_cte_names g st) in
      let nodes = g.find_all st (g.root st) table in
      let (r, looped, rest) = >>=-eq-ok (for_each nodes no_tables body) _ h in
      let (_, e) = raise_if-then (is_empty r.referenced) _ _ rest in
      subst AreNamed (ok_inj e) (
        for_each_members AreNamed body nodes visit_table-AreNamed no_tables r looped
          (λ k a none_found. absurd (cc)))

-- ===== src/Sql/RowFilter/Injection.antt =====
-- What row_filter_service.py writes into a statement: every mandatory filter of the direct tables
-- of a SELECT, joined to the condition that was there. And what it leaves out: tables inside a
-- common table expression.
use multi_tenant_data_chat_p.Shared.{
  ℕ, ◌≡◌, refl, sym, ap, ◌∙◌, ◌≢◌, inl, inr, Bool, true, ◌&&◌, ◌||◌, Option, none, some, List, [],
  ◌∷◌, ◌++◌, In, here, there, In-append_left, In-append_right, is_empty, for_each, Result, ok,
  ok_inj, >>=-eq-ok, raise_if-then, ==_iff, arith,
}
use multi_tenant_data_chat_p.Shared.Text.{Text, text, text_eq, strip}
use multi_tenant_data_chat_p.Values.{Fields, str}
use multi_tenant_data_chat_p.Permissions.{AllowedTable, AllowedSchema}
use multi_tenant_data_chat_p.Sql.Sqlglot.{Sqlglot}
use multi_tenant_data_chat_p.Sql.RowFilter.{
  catch_unparsed, catch_unparsed-eq-ok, inject_filter_into_select, unique_selects, secure_select,
  inject_mandatory_row_filters,
}
use multi_tenant_data_chat_p.Sql.RowFilter.Rules.{
  Fault, combine_expressions, build_filter_group_expression,
}
use multi_tenant_data_chat_p.Sql.RowFilter.Selects.{
  get_direct_tables, resolve_select_table, table_filters, filters_of, security_expressions,
  combine_security, build_select_security_expression,
}
use multi_tenant_data_chat_p.Sql.RowFilter.Combination.{
  keeps_all, IsTruth, combine_expressions-keeps,
}

keeps_all-In :
    {A : Type 0} (keeps : A → Bool) (xs : List A) (x : A)
    → keeps_all keeps xs ≡ true
    → In x xs
    → keeps x ≡ true
keeps_all-In keeps [] x h i = elim i [ ]
keeps_all-In keeps (y ∷ ys) x h (here e) = ap keeps e ∙ ground arith
keeps_all-In keeps (y ∷ ys) x h (there i) = keeps_all-In keeps ys x (ground arith) i

all-ne-any : text "all" ≢ text "any"
unfolding text_eq
all-ne-any e = cc ((==_iff (text "all") (text "any")).1 e)

str_inj : {s t : Text} → str s ≡ str t → s ≡ t
str_inj e = cc

module _ {Statement Node Condition : Type 0} (g : Sqlglot Statement Node Condition) where
  -- What sqlglot promises of `select.set("where", …)`.
  abbrev pub SetsWhere : Type 0
  SetsWhere =
      (st : Statement) (node : Node) (c : Condition)
      → g.where_condition (g.set_where st node c) node ≡ some c

  -- A SELECT without a WHERE keeps every row.
  abbrev pub keeps_where : (Condition → Bool) → Statement → Node → Bool
  keeps_where keeps st node = elim (g.where_condition st node) [ none ↦ true | some c ↦ keeps c ]

  module _ (st : Statement) (allowed_schema : AllowedSchema) (tenant_id user_id : ℕ) where
    table_filters-In :
        (t : AllowedTable) (reference : Text) (groups : List Fields) (es : List Condition)
        (group : Fields)
        → table_filters g st allowed_schema tenant_id user_id t reference groups ≡ ok es
        → In group groups
        → (e : Condition) × (build_filter_group_expression g t reference tenant_id user_id group
            ≡ ok e)
          × In e es
    unfolding table_filters
    table_filters-In t reference [] es group h i = elim i [ ]
    table_filters-In t reference (x ∷ xs) es group h i =
        let (e, built, h₁) =
          >>=-eq-ok (build_filter_group_expression g t reference tenant_id user_id x) _ h in
        let (es', rest, done) =
          >>=-eq-ok (table_filters g st allowed_schema tenant_id user_id t reference xs) _ h₁ in
        rw (← ok_inj done)
          (found e es' built (λ j. table_filters-In t reference xs es' group rest j) i)
      where
        found :
            (e : Condition) (es' : List Condition)
            → build_filter_group_expression g t reference tenant_id user_id x ≡ ok e
            → (In group xs
                → (d : Condition) × (build_filter_group_expression g t reference tenant_id user_id
                      group
                    ≡ ok d)
                  × In d es')
            → In group (x ∷ xs)
            → (d : Condition) × (build_filter_group_expression g t reference tenant_id user_id group
                ≡ ok d)
              × In d (e ∷ es')
        found e es' built ih (here p) = (e, rw p built, here refl)
        found e es' built ih (there j) = let (d, b, k) = ih j in (d, b, there k)

    -- A filter of a direct table is among the conditions of the SELECT.
    security_expressions-In :
        (nodes : List Node) (es : List Condition) (node : Node) (t : AllowedTable)
        (reference : Text) (group : Fields)
        → security_expressions g st allowed_schema tenant_id user_id nodes ≡ ok es
        → In node nodes
        → resolve_select_table g st allowed_schema node ≡ ok (some (t, reference))
        → In group t.row_filters
        → (e : Condition) × (build_filter_group_expression g t reference tenant_id user_id group
            ≡ ok e)
          × In e es
    unfolding security_expressions
    security_expressions-In [] es node t reference group h i r j = elim i [ ]
    security_expressions-In (x ∷ xs) es node t reference group h i r j =
        let (o, resolved, h₁) = >>=-eq-ok (resolve_select_table g st allowed_schema x) _ h in
        let (here_es, own, h₂) =
          >>=-eq-ok (filters_of g st allowed_schema tenant_id user_id o) _ h₁ in
        let (later_es, rest, done) =
          >>=-eq-ok (security_expressions g st allowed_schema tenant_id user_id xs) _ h₂ in
        rw (← ok_inj done) (
          found o here_es later_es resolved own
            (λ k. security_expressions-In xs later_es node t reference group rest k r j) i)
      where
        found :
            (o : Option (AllowedTable × Text)) (here_es later_es : List Condition)
            → resolve_select_table g st allowed_schema x ≡ ok o
            → filters_of g st allowed_schema tenant_id user_id o ≡ ok here_es
            → (In node xs
                → (e : Condition) × (build_filter_group_expression g t reference tenant_id user_id
                      group
                    ≡ ok e)
                  × In e later_es)
            → In node (x ∷ xs)
            → (e : Condition) × (build_filter_group_expression g t reference tenant_id user_id group
                ≡ ok e)
              × In e (here_es ++ later_es)
        found o here_es later_es resolved own ih (there k) =
            let (e, b, l) = ih k in (e, b, In-append_right here_es l)
        found o here_es later_es resolved own ih (here p) =
            let same : o ≡ some (t, reference) =
              ok_inj (sym resolved ∙ ap (resolve_select_table g st allowed_schema) (sym p) ∙ r) in
            let (e, b, l) =
              table_filters-In t reference t.row_filters here_es group
                (unfold filters_of in (rw same at own)) j in
            (e, b, In-append_left later_es l)

  module _ (keeps : Condition → Bool) (truth : IsTruth g keeps) (sets : SetsWhere) where
    combine_security-keeps :
        (st : Statement) (allowed_schema : AllowedSchema) (tenant_id user_id : ℕ)
        (es : List Condition) (o : Option Condition)
        → combine_security g st allowed_schema tenant_id user_id es ≡ ok o
        → elim o [ none ↦ true | some c ↦ keeps c ] ≡ keeps_all keeps es
    unfolding combine_security
    combine_security-keeps st allowed_schema tenant_id user_id [] o h = rw (← ok_inj h) refl
    combine_security-keeps st allowed_schema tenant_id user_id (e ∷ es) o h =
        let (c, combined, done) =
          >>=-eq-ok (combine_expressions g (e ∷ es) (str (text "all"))) _ h in
        rw (← ok_inj done)
          (elim (combine_expressions-keeps g keeps truth (e ∷ es) (str (text "all")) c combined) [
            | inl (_, k) ↦ k
            | inr (wrong, _) ↦ absurd (all-ne-any (str_inj wrong))
          ])

    keeps_where-inject :
        (st : Statement) (node : Node) (c : Condition)
        → keeps_where keeps (inject_filter_into_select g st node c) node
          ≡ (keeps_where keeps st node && keeps c)
    unfolding inject_filter_into_select
    keeps_where-inject st node c = split (g.where_condition st node)
      where
        split :
            (w : Option Condition)
            → keeps_where keeps
                (elim w [
                  | none ↦ g.set_where st node c
                  | some existing ↦ g.set_where st node (g.and_ existing c)
                ])
                node
              ≡ (elim w [ none ↦ true | some x ↦ keeps x ] && keeps c)
        split none = rw (sets st node c, keeps_where) (ground arith)
        split (some x) = rw (sets st node (g.and_ x c), keeps_where) (truth.keeps-and x c)

    -- One round of the loop over the SELECTs: afterwards the SELECT keeps exactly the rows that
    -- it kept before and that every filter of its direct tables keeps.
    pub secure_select-keeps :
        (allowed_schema : AllowedSchema) (tenant_id user_id : ℕ) (node : Node) (st st' : Statement)
        → secure_select g allowed_schema tenant_id user_id node st ≡ ok st'
        → (es : List Condition) × (security_expressions g st allowed_schema tenant_id user_id
              (get_direct_tables g st node)
            ≡ ok es)
          × (keeps_where keeps st' node ≡ (keeps_where keeps st node && keeps_all keeps es))
    unfolding secure_select build_select_security_expression
    secure_select-keeps allowed_schema tenant_id user_id node st st' h =
        let (o, built, h₁) =
          >>=-eq-ok (build_select_security_expression g st allowed_schema tenant_id user_id node) _
            h in
        let (es, collected, combined) =
          >>=-eq-ok
            (security_expressions g st allowed_schema tenant_id user_id
              (get_direct_tables g st node))
            _ built in
        (
          es,
          collected,
          written o h₁
              ∙ ap (λ b. keeps_where keeps st node && b)
                  (combine_security-keeps st allowed_schema tenant_id user_id es o combined),
        )
      where
        written :
            (o : Option Condition)
            → ◌≡◌ {A = Result Fault Statement}
                (elim o [ none ↦ ok st | some c ↦ ok (inject_filter_into_select g st node c) ])
                (ok st')
            → keeps_where keeps st' node
              ≡ (keeps_where keeps st node && elim o [ none ↦ true | some c ↦ keeps c ])
        written none e = rw (← ok_inj e) (ground arith)
        written (some c) e = rw (← ok_inj e) (keeps_where-inject st node c)

    module _ (allowed_schema : AllowedSchema) (tenant_id user_id : ℕ) (sql dialect : Text) where
      -- A text whose statement has one SELECT is rewritten so that a row which the SELECT keeps
      -- is kept by the condition that was there, and by every row filter of every allowed table
      -- that is a direct table of the SELECT and stands in no common table expression.
      pub inject-keeps_filters :
          (st : Statement) (node : Node) (secured : Text)
          → g.parse_one sql dialect ≡ ok st
          → unique_selects g st ≡ node ∷ []
          → inject_mandatory_row_filters g allowed_schema tenant_id user_id sql dialect ≡ ok secured
          → (st' : Statement) × (secured ≡ g.to_sql st' dialect)
            × (keeps_where keeps st' node ≡ true
                → (keeps_where keeps st node ≡ true)
                  × ((x : Node) (t : AllowedTable) (reference : Text) (group : Fields)
                      → In x (get_direct_tables g st node)
                      → resolve_select_table g st allowed_schema x ≡ ok (some (t, reference))
                      → In group t.row_filters
                      → (e : Condition) × (build_filter_group_expression g t reference tenant_id
                            user_id group
                          ≡ ok e)
                        × (keeps e ≡ true)))
      unfolding inject_mandatory_row_filters for_each
      inject-keeps_filters st node secured parsed only h =
          let (_, h₁) = raise_if-then (is_empty sql || is_empty (strip sql)) _ _ h in
          let (st₀, read, h₂) = >>=-eq-ok (catch_unparsed (g.parse_one sql dialect)) _ h₁ in
          let same : st₀ ≡ st =
            ok_inj (sym (catch_unparsed-eq-ok (g.parse_one sql dialect) read) ∙ parsed) in
          let (st', looped, done) =
            >>=-eq-ok
              (for_each (unique_selects g st₀) st₀
                (secure_select g allowed_schema tenant_id user_id))
              _ h₂ in
          let (st'', first, last) =
            >>=-eq-ok (secure_select g allowed_schema tenant_id user_id node st) _
              (rw (same, only) at looped) in
          let (es, collected, k) =
            secure_select-keeps allowed_schema tenant_id user_id node st st'' first in
          (
            st'',
            sym (ok_inj done) ∙ ap (λ s. g.to_sql s dialect) (sym (ok_inj last)),
            λ kept. (
              ground (arith, k),
              λ x t reference group i r j.
                  let (e, built, l) =
                    security_expressions-In st allowed_schema tenant_id user_id
                      (get_direct_tables g st node) es x t reference group collected i r j in
                  (e, built, keeps_all-In keeps es e (ground (arith, k)) l),
            ),
          )
        where
          some_inj : {a b : Statement} → some a ≡ some b → a ≡ b
          some_inj p = cc

-- ===== src/Sql/Validator/Tables/Soundness.antt =====
-- What it means that query_validator.py resolved the tables of a statement.
use multi_tenant_data_chat_p.Shared.{
  ◌≡◌, refl, sym, ap, subst, ◌∙◌, ◌⊎◌, inl, inr, Bool, true, false, ◌||◌, Option, none, some, List,
  [], ◌∷◌, ◌==◌, ==_iff, In, here, In-filter_by, contains, contains-append_new, is_empty, for_each,
  for_each_sound, Result, ok, ok_inj, >>=-eq-ok, raise_if-then, or_raise, or_raise-eq-ok,
  Bool-cases, if◌then◌else◌, arith,
}
use multi_tenant_data_chat_p.Shared.Text.{Text, text_eq, lower, qualify}
use multi_tenant_data_chat_p.Shared.Dict.{Dict, get, put, get-put_either, In-of_get, get-of_In}
use multi_tenant_data_chat_p.Permissions.{AllowedTable, AllowedSchema}
use multi_tenant_data_chat_p.Sql.Sqlglot.{Sqlglot, table}
use multi_tenant_data_chat_p.Sql.Validator.Errors.{Fault}
use multi_tenant_data_chat_p.Sql.Validator.Tables.{
  is_system_schema, tables_named, only_match, resolve_name, Referenced, add_alias, add_table,
  no_tables, get_cte_names, resolve_allowed_table, visit_table, collect_referenced_tables,
}

-- How the schema part and the name of a table in the statement pick an allowed table.
abbrev pub Picks : Text → Text → Text → AllowedTable → Type 0
Picks [] table_name q a = lower a.table_name ≡ table_name
Picks (c ∷ db) table_name q a =
    (q ≡ qualify (lower (c ∷ db)) table_name) × (is_system_schema (lower (c ∷ db)) ≡ false)

In-tables_named :
    (table_name : Text) (tables : Dict Text AllowedTable) (m : Text × AllowedTable)
    → In m (tables_named table_name tables)
    → In m tables × (lower m.1.table_name ≡ table_name)
unfolding tables_named
In-tables_named table_name tables m i =
    let (j, e) =
      In-filter_by (λ (t : Text × AllowedTable). lower t.1.table_name == table_name) m tables i in
    (j, (==_iff _ _).0 e)

only_match-eq-ok :
    (table_name : Text) (ms : List (Text × AllowedTable)) (m : Text × AllowedTable)
    → only_match table_name ms ≡ ok m
    → In m ms
unfolding only_match
only_match-eq-ok table_name [] m h = cc
only_match-eq-ok table_name (x ∷ []) m h = here (sym (ok_inj h))
only_match-eq-ok table_name (x ∷ y ∷ ms) m h = cc

resolve_name_sound :
    (db table_name : Text) (tables : Dict Text AllowedTable) (m : Text × AllowedTable)
    → resolve_name db table_name tables ≡ ok m
    → In m tables × Picks db table_name m.0 m.1
unfolding resolve_name
resolve_name_sound [] table_name tables m h =
    In-tables_named table_name tables m (only_match-eq-ok table_name _ m h)
resolve_name_sound (c ∷ db) table_name tables m h =
    let q = qualify (lower (c ∷ db)) table_name in
    let (user_schema, rest) = raise_if-then (is_system_schema (lower (c ∷ db))) _ _ h in
    let (a, found, e) = >>=-eq-ok (or_raise (get tables q) _) _ rest in
    let here_it_is = In-of_get tables q (or_raise-eq-ok (get tables q) _ found) in
    let e' : (q, a) ≡ m = ok_inj e in
    (
      subst (λ x. In x tables) e' here_it_is,
      (ap (λ (x : Text × AllowedTable). x.0) (sym e'), user_schema),
    )

-- What the loop keeps: every table that a qualifier finds is an allowed table, listed under its
-- key among the referenced ones, and every referenced name is a key of the allowed schema.
pub record IsKnown (tables : Dict Text AllowedTable) (r : Referenced) : Type 0 where
  pub lookup_known :
      (k : Text) (a : AllowedTable)
      → get r.lookup k ≡ some a
      → (q : Text) × In (q, a) tables × (contains r.referenced q ≡ true)
  pub referenced_known :
      (q : Text) → contains r.referenced q ≡ true → (a : AllowedTable) × (get tables q ≡ some a)

no_tables-IsKnown : (tables : Dict Text AllowedTable) → IsKnown tables no_tables
unfolding get
no_tables-IsKnown tables = record {
  lookup_known = λ k a h. absurd (cc);
  referenced_known = λ q h. absurd (cc);
}

module _ (alias : Text) (q : Text) (a : AllowedTable) (r : Referenced) where
  contains-add_table :
      (p : Text)
      → contains (add_table alias (q, a) r).referenced p ≡ (p == q || contains r.referenced p)
  unfolding add_table
  contains-add_table p = contains-append_new q r.referenced p

  -- A qualifier finds the new table, or what it found before.
  get-add_table :
      (k : Text) (b : AllowedTable)
      → get (add_table alias (q, a) r).lookup k ≡ some b
      → (b ≡ a) ⊎ (get r.lookup k ≡ some b)
  unfolding add_table add_alias
  get-add_table k b h = elim (named _ (is_empty alias) h) [
    | inl e ↦ inl e
    | inr h₁ ↦ elim (get-put_either _ (lower a.table_name) a k h₁) [
      | inl e ↦ inl e
      | inr h₂ ↦ get-put_either r.lookup (lower q) a k h₂
    ]
  ]
    where
      named :
          (d : Dict Text AllowedTable) (no_alias : Bool)
          → get (if no_alias then d else put d (lower alias) a) k ≡ some b
          → (b ≡ a) ⊎ (get d k ≡ some b)
      named d true h' = inr h'
      named d false h' = get-put_either _ (lower alias) a k h'

  add_table-IsKnown :
      (tables : Dict Text AllowedTable)
      → In (q, a) tables
      → IsKnown tables r
      → IsKnown tables (add_table alias (q, a) r)
  add_table-IsKnown tables i known = record {
    lookup_known = λ k b h. elim (get-add_table k b h) [
      | inl e ↦ (q, subst (λ x. In (q, x) tables) (sym e) i, listed q (inl refl))
      | inr old ↦ let (p, j, l) = known.lookup_known k b old in (p, j, listed p (inr l))
    ];
    referenced_known = λ p h. elim (text_eq.dec p q) [
      | yes same ↦
          subst (λ x. (b : AllowedTable) × (get tables x ≡ some b)) (sym same)
            (get-of_In tables q i)
      | no differ ↦ known.referenced_known p (ground (arith, contains-add_table p))
    ];
  }
    where
      listed :
          (p : Text)
          → (p ≡ q) ⊎ (contains r.referenced p ≡ true)
          → contains (add_table alias (q, a) r).referenced p ≡ true
      listed p h = ground (arith, contains-add_table p)

module _ {Statement Node Condition : Type 0} (g : Sqlglot Statement Node Condition) (st : Statement)
    (allowed_schema : AllowedSchema) where
  -- What the statement's table is resolved to: the name of a CTE, or an allowed table that is
  -- listed among the referenced ones.
  abbrev pub IsResolved : List Text → Node → Referenced → Type 0
  IsResolved cte_names node r =
      (contains cte_names (lower (g.name st node)) ≡ true)
      ⊎ ((q : Text) × (a : AllowedTable) × In (q, a) allowed_schema.tables
          × Picks (g.db st node) (lower (g.name st node)) q a
          × (contains r.referenced q ≡ true))

  pub resolve_allowed_table_sound :
      (cte_names : List Text) (node : Node) (o : Option (Text × AllowedTable))
      → resolve_allowed_table g st node allowed_schema cte_names ≡ ok o
      → ((contains cte_names (lower (g.name st node)) ≡ true) × (o ≡ none))
        ⊎ ((m : Text × AllowedTable) × (o ≡ some m)
            × In m allowed_schema.tables
            × Picks (g.db st node) (lower (g.name st node)) m.0 m.1
            × (contains cte_names (lower (g.name st node)) ≡ false))
  unfolding resolve_allowed_table
  resolve_allowed_table_sound cte_names node o h =
      elim (Bool-cases (contains cte_names (lower (g.name st node)))) [
        | inl t ↦ inl (t, sym (ok_inj (rw t at h)))
        | inr f ↦
            let (m, found, e) = >>=-eq-ok (resolve_name _ _ allowed_schema.tables) _ (rw f at h) in
            let (i, p) =
              resolve_name_sound (g.db st node) (lower (g.name st node)) allowed_schema.tables m
                found in
            inr (m, sym (ok_inj e), i, p, f)
      ]

  abbrev pub extend : Node → Referenced → Option (Text × AllowedTable) → Referenced
  extend node r none = r
  extend node r (some m) = add_table (g.alias st node) m r

  pub visit_table-eq-ok :
      (cte_names : List Text) (node : Node) (r r' : Referenced)
      → visit_table g st allowed_schema cte_names node r ≡ ok r'
      → (o : Option (Text × AllowedTable)) × (resolve_allowed_table g st node allowed_schema
            cte_names
          ≡ ok o)
        × (r' ≡ extend node r o)
  unfolding visit_table
  visit_table-eq-ok cte_names node r r' h =
      let (o, found, e) =
        >>=-eq-ok (resolve_allowed_table g st node allowed_schema cte_names) _ h in
      (o, found, done o e)
    where
      done :
          (o : Option (Text × AllowedTable))
          → ◌≡◌ {A = Result Fault Referenced}
              (elim o [ none ↦ ok r | some found ↦ ok (add_table (g.alias st node) found r) ])
              (ok r')
          → r' ≡ extend node r o
      done none e = sym (ok_inj e)
      done (some m) e = sym (ok_inj e)

  visit_table-IsKnown :
      (cte_names : List Text) (node : Node) (r r' : Referenced)
      → visit_table g st allowed_schema cte_names node r ≡ ok r'
      → IsKnown allowed_schema.tables r
      → IsKnown allowed_schema.tables r' × IsResolved cte_names node r'
  visit_table-IsKnown cte_names node r r' h known =
      let (o, found, e) = visit_table-eq-ok cte_names node r r' h in
      elim (resolve_allowed_table_sound cte_names node o found) [
        | inl (in_ctes, nothing) ↦
            let e' : r' ≡ r = e ∙ ap (extend node r) nothing in (rw e' known, inl in_ctes)
        | inr (m, is_m, i, p, outside) ↦
            let e' : r' ≡ add_table (g.alias st node) m r = e ∙ ap (extend node r) is_m in
            (
              rw e' (add_table-IsKnown (g.alias st node) m.0 m.1 r allowed_schema.tables i known),
              inr (
                m.0,
                m.1,
                i,
                p,
                rw e' (ground (arith, contains-add_table (g.alias st node) m.0 m.1 r m.0)),
              ),
            )
      ]

  visit_table-keeps :
      (cte_names : List Text) (x y : Node) (r r' : Referenced)
      → visit_table g st allowed_schema cte_names x r ≡ ok r'
      → IsResolved cte_names y r
      → IsResolved cte_names y r'
  visit_table-keeps cte_names x y r r' h before =
      let (o, found, e) = visit_table-eq-ok cte_names x r r' h in
      elim before [
        | inl in_ctes ↦ inl in_ctes
        | inr (q, a, i, p, listed) ↦ inr (q, a, i, p, rw e (stays o q listed))
      ]
    where
      stays :
          (o : Option (Text × AllowedTable)) (q : Text)
          → contains r.referenced q ≡ true
          → contains (extend x r o).referenced q ≡ true
      stays none q l = l
      stays (some m) q l = ground (arith, contains-add_table (g.alias st x) m.0 m.1 r q)

  -- When the stage succeeds, at least one table is referenced, every `Table` node of the
  -- statement is resolved, and what columns may refer to is known.
  pub collect_referenced_tables_sound :
      (tables : Referenced)
      → collect_referenced_tables g st allowed_schema ≡ ok tables
      → IsKnown allowed_schema.tables tables
        × ((node : Node)
            → In node (g.find_all st (g.root st) table)
            → IsResolved (get_cte_names g st) node tables)
        × (is_empty tables.referenced ≡ false)
  unfolding collect_referenced_tables
  collect_referenced_tables_sound tables h =
      let ctes = get_cte_names g st in
      let (r, looped, rest) =
        >>=-eq-ok
          (for_each (g.find_all st (g.root st) table) no_tables
            (visit_table g st allowed_schema ctes))
          _ h in
      let (some_table, e) = raise_if-then (is_empty r.referenced) _ _ rest in
      let (known, resolved) =
        for_each_sound (IsKnown allowed_schema.tables) (IsResolved ctes)
          (visit_table g st allowed_schema ctes) (visit_table-IsKnown ctes) (visit_table-keeps ctes)
          (g.find_all st (g.root st) table) no_tables r looped (no_tables-IsKnown _) in
      rw (← ok_inj e) (known, resolved, some_table)

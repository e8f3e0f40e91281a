-- ===== src/Sql/Validator/Columns/Soundness.antt =====
-- What it means that query_validator.py accepted the columns of a statement.
use multi_tenant_data_chat_p.Shared.{
  ◌≡◌, refl, sym, ap, ◌∙◌, some_inj, subst, ◌⊎◌, inl, inr, true, false, not, Option, none, some,
  List, [], ◌∷◌, ==_self, In, here, there, contains, append_new, contains-append_new, is_empty,
  for_each, for_each_sound, Result, ok, ok_inj, >>=-eq-ok, raise_if-then, or_raise, or_raise-eq-ok,
  Bool-cases, arith,
}
use multi_tenant_data_chat_p.Shared.Text.{Text, text_eq, lower}
use multi_tenant_data_chat_p.Shared.Dict.{Dict, get, In-of_get}
use multi_tenant_data_chat_p.Permissions.{AllowedColumn, AllowedTable, AllowedSchema}
use multi_tenant_data_chat_p.Sql.Sqlglot.{Sqlglot, star, column}
use multi_tenant_data_chat_p.Sql.Validator.Errors.{Fault, key_error}
use multi_tenant_data_chat_p.Sql.Validator.Tables.{Referenced}
use multi_tenant_data_chat_p.Sql.Validator.Tables.Soundness.{IsKnown}
use multi_tenant_data_chat_p.Sql.Validator.Tables.Names.{IsNamed, AreNamed}
use multi_tenant_data_chat_p.Sql.Validator.Columns.{
  column_matches, only_column, resolve_column, column_reference, is_filter_column,
  is_aggregate_column, validate_column_access, check_column, visit_column,
  collect_referenced_columns,
}

module _ (column_name : Text) (tables : Dict Text AllowedTable) where
  -- A pair that the loop collects: a listed table and its column of that name.
  abbrev IsMatch : List Text → AllowedTable × AllowedColumn → Type 0
  IsMatch qs m =
      (q : Text) × (contains qs q ≡ true)
      × (get tables q ≡ some m.0)
      × (get m.0.columns column_name ≡ some m.1)

  column_matches_sound :
      (qs : List Text) (ms : List (AllowedTable × AllowedColumn)) (m : AllowedTable × AllowedColumn)
      → column_matches column_name qs tables ≡ ok ms
      → In m ms
      → IsMatch qs m
  unfolding column_matches
  column_matches_sound [] ms m h i = elim (subst (In m) (sym (ok_inj h)) i) [ ]
  column_matches_sound (q ∷ qs) ms m h i =
      let (a, found, h₁) = >>=-eq-ok (or_raise (get tables q) (key_error q)) _ h in
      let (more, looped, h₂) = >>=-eq-ok (column_matches column_name qs tables) _ h₁ in
      step a more (or_raise-eq-ok (get tables q) (key_error q) found)
        (λ j. column_matches_sound qs more m looped j) (get a.columns column_name) refl h₂
    where
      later : IsMatch qs m → IsMatch (q ∷ qs) m
      later (p, l, e₁, e₂) = (p, ground arith, e₁, e₂)

      step :
          (a : AllowedTable) (more : List (AllowedTable × AllowedColumn))
          → get tables q ≡ some a
          → (In m more → IsMatch qs m)
          → (o : Option AllowedColumn) → get a.columns column_name ≡ o
          → ◌≡◌ {A = Result Fault (List (AllowedTable × AllowedColumn))}
              (elim o [ none ↦ ok more | some c ↦ ok ((a, c) ∷ more) ])
              (ok ms)
          → IsMatch (q ∷ qs) m
      step a more e ih none eo h' = later (ih (subst (In m) (sym (ok_inj h')) i))
      step a more e ih (some c) eo h' = first (subst (In m) (sym (ok_inj h')) i)
        where
          first : In m ((a, c) ∷ more) → IsMatch (q ∷ qs) m
          first (here p) = subst (IsMatch (q ∷ qs)) (sym p) (q, ground (arith, ==_self q), e, eo)
          first (there j) = later (ih j)

only_column-eq-ok :
    (column_name : Text) (ms : List (AllowedTable × AllowedColumn))
    (m : AllowedTable × AllowedColumn)
    → only_column column_name ms ≡ ok m
    → In m ms
unfolding only_column
only_column-eq-ok column_name [] m h = cc
only_column-eq-ok column_name (x ∷ []) m h = here (sym (ok_inj h))
only_column-eq-ok column_name (x ∷ y ∷ ms) m h = cc

-- Every listed table that has the column is among the matches.
column_matches_complete :
    (column_name : Text) (tables : Dict Text AllowedTable) (qs : List Text)
    (ms : List (AllowedTable × AllowedColumn)) (q : Text) (a : AllowedTable) (col : AllowedColumn)
    → column_matches column_name qs tables ≡ ok ms
    → contains qs q ≡ true
    → get tables q ≡ some a
    → get a.columns column_name ≡ some col
    → In (a, col) ms
unfolding column_matches
column_matches_complete column_name tables [] ms q a col h l e₁ e₂ = cc
column_matches_complete column_name tables (p ∷ qs) ms q a col h l e₁ e₂ =
    let (b, found, h₁) = >>=-eq-ok (or_raise (get tables p) (key_error p)) _ h in
    let (more, looped, h₂) = >>=-eq-ok (column_matches column_name qs tables) _ h₁ in
    elim (text_eq.dec q p) [
      | yes same ↦
          let own : b ≡ a =
            some_inj
              (sym (or_raise-eq-ok (get tables p) _ found) ∙ ap (get tables) (sym same) ∙ e₁) in
          let it : get b.columns column_name ≡ some col =
            ap (λ (t : AllowedTable). get t.columns column_name) own ∙ e₂ in
          subst (In (a, col)) (ok_inj (rw it at h₂)) (here (ap (λ x. (x, col)) (sym own)))
      | no differ ↦
          added b more (get b.columns column_name)
            (column_matches_complete column_name tables qs more q a col looped (ground arith) e₁ e₂)
            h₂
    ]
  where
    added :
        (b : AllowedTable) (more : List (AllowedTable × AllowedColumn)) (o : Option AllowedColumn)
        → In (a, col) more
        → ◌≡◌ {A = Result Fault (List (AllowedTable × AllowedColumn))}
            (elim o [ none ↦ ok more | some c ↦ ok ((b, c) ∷ more) ])
            (ok ms)
        → In (a, col) ms
    added b more none i e = subst (In (a, col)) (ok_inj e) i
    added b more (some c) i e = subst (In (a, col)) (ok_inj e) (there i)

only_column_unique :
    (column_name : Text) (ms : List (AllowedTable × AllowedColumn))
    (m n : AllowedTable × AllowedColumn)
    → only_column column_name ms ≡ ok m
    → In n ms
    → n ≡ m
unfolding only_column
only_column_unique column_name [] m n h i = cc
only_column_unique column_name (x ∷ []) m n h (here e) = e ∙ ok_inj h
only_column_unique column_name (x ∷ []) m n h (there i) = elim i [ ]
only_column_unique column_name (x ∷ y ∷ ms) m n h i = cc

module _ {Statement Node Condition : Type 0} (g : Sqlglot Statement Node Condition) (st : Statement)
    (allowed_schema : AllowedSchema) (tables : Referenced) where
  -- What the qualifier of a column says of its table: some table of the statement bears it; a
  -- column without one is in no other referenced table.
  abbrev pub Qualifies : Text → Text → AllowedTable → Type 0
  Qualifies [] column_name a =
      (q : Text) (b : AllowedTable) (col : AllowedColumn)
      → contains tables.referenced q ≡ true
      → get allowed_schema.tables q ≡ some b
      → get b.columns column_name ≡ some col
      → b ≡ a
  Qualifies (c ∷ qualifier) column_name a = IsNamed g st allowed_schema (lower (c ∷ qualifier)) a

  -- A table that the statement references and that the qualifier may name, with its column of that
  -- name.
  abbrev pub IsReferencedColumn : Text → Text → AllowedTable × AllowedColumn → Type 0
  IsReferencedColumn qualifier column_name m =
      (q : Text) × In (q, m.0) allowed_schema.tables
      × (contains tables.referenced q ≡ true)
      × (get m.0.columns column_name ≡ some m.1)
      × Qualifies qualifier column_name m.0

module _ {Statement Node Condition : Type 0} (g : Sqlglot Statement Node Condition) (st : Statement)
    (allowed_schema : AllowedSchema) (tables : Referenced)
    (named : AreNamed g st allowed_schema tables)
    (known : IsKnown allowed_schema.tables tables) where
  resolve_column_sound :
      (qualifier column_name : Text) (m : AllowedTable × AllowedColumn)
      → resolve_column qualifier column_name tables allowed_schema ≡ ok m
      → IsReferencedColumn g st allowed_schema tables qualifier column_name m
  unfolding resolve_column
  resolve_column_sound [] column_name m h =
      let (ms, looped, one) =
        >>=-eq-ok (column_matches column_name tables.referenced allowed_schema.tables) _ h in
      let (q, l, e₁, e₂) =
        column_matches_sound column_name allowed_schema.tables tables.referenced ms m looped
          (only_column-eq-ok column_name ms m one) in
      (
        q,
        In-of_get allowed_schema.tables q e₁,
        l,
        e₂,
        λ p b col listed e₃ e₄.
            ap (λ (x : AllowedTable × AllowedColumn). x.0)
              (only_column_unique column_name ms m (b, col) one
                (column_matches_complete column_name allowed_schema.tables tables.referenced ms p b
                  col looped listed e₃ e₄)),
      )
  resolve_column_sound (c ∷ qualifier) column_name m h =
      let qualifier' = lower (c ∷ qualifier) in
      let (a, found, h₁) = >>=-eq-ok (or_raise (get tables.lookup qualifier') _) _ h in
      let (col, found', e) = >>=-eq-ok (or_raise (get a.columns column_name) _) _ h₁ in
      let (q, i, l) =
        known.lookup_known qualifier' a (or_raise-eq-ok (get tables.lookup qualifier') _ found) in
      let e' : (a, col) ≡ m = ok_inj e in
      subst (IsReferencedColumn g st allowed_schema tables (c ∷ qualifier) column_name) e' (
        q,
        i,
        l,
        or_raise-eq-ok (get a.columns column_name) _ found',
        named qualifier' a (or_raise-eq-ok (get tables.lookup qualifier') _ found),
      )

module _ {Statement Node Condition : Type 0} (g : Sqlglot Statement Node Condition)
    (st : Statement) where
  -- The use that the statement makes of the column is granted.
  abbrev pub IsGranted : Node → AllowedColumn → Type 0
  IsGranted node c =
      (c.can_read ≡ true)
      × (is_filter_column g st node ≡ true → c.can_filter ≡ true)
      × (is_aggregate_column g st node ≡ true → c.can_aggregate ≡ true)

  -- Reading is refused first, then filtering, then aggregation; what passes is granted.
  pub validate_column_access_sound :
      (node : Node) (c : AllowedColumn) {t : Unit {0}}
      → validate_column_access g st node c ≡ ok t
      → IsGranted node c
  unfolding validate_column_access
  validate_column_access_sound node c h = (ground arith, ground arith, ground arith)

  module _ (allowed_schema : AllowedSchema) (tables : Referenced) where
    -- What an accepted column is: without a name, or a granted column of a referenced table
    -- that is listed among the referenced columns.
    abbrev pub IsAccepted : Node → List Text → Type 0
    IsAccepted node columns =
        (is_empty (lower (g.name st node)) ≡ true)
        ⊎ ((m : AllowedTable × AllowedColumn) × IsReferencedColumn g st allowed_schema tables
              (g.table_of st node) (lower (g.name st node)) m
            × IsGranted node m.1
            × (contains columns (column_reference m.0 (lower (g.name st node))) ≡ true))

  module _ (allowed_schema : AllowedSchema) (tables : Referenced)
      (named : AreNamed g st allowed_schema tables)
      (known : IsKnown allowed_schema.tables tables) where
    check_column_sound :
        (node : Node) (columns columns' : List Text)
        → check_column g st tables allowed_schema node columns ≡ ok columns'
        → (m : AllowedTable × AllowedColumn) × IsReferencedColumn g st allowed_schema tables
            (g.table_of st node)
            (lower (g.name st node))
            m
          × IsGranted node m.1
          × (columns' ≡ append_new (column_reference m.0 (lower (g.name st node))) columns)
    unfolding check_column
    check_column_sound node columns columns' h =
        let (m, found, h₁) =
          >>=-eq-ok
            (resolve_column (g.table_of st node) (lower (g.name st node)) tables allowed_schema) _
            h in
        let (u, granted, e) = >>=-eq-ok (validate_column_access g st node m.1) _ h₁ in
        (
          m,
          resolve_column_sound g st allowed_schema tables named known (g.table_of st node)
              (lower (g.name st node)) m found,
          validate_column_access_sound node m.1 granted,
          sym (ok_inj e),
        )

    visit_column_sound :
        (node : Node) (columns columns' : List Text)
        → visit_column g st tables allowed_schema node columns ≡ ok columns'
        → Unit {0}
        → Unit {0} × IsAccepted allowed_schema tables node columns'
    unfolding visit_column
    visit_column_sound node columns columns' h _ =
        elim (Bool-cases (is_empty (lower (g.name st node)))) [
          | inl nameless ↦ (tt, inl nameless)
          | inr named ↦
              let (m, r, granted, e) = check_column_sound node columns columns' (rw named at h) in
              (
                tt,
                inr (
                  m,
                  r,
                  granted,
                  rw e (
                      ground (
                        arith,
                        contains-append_new (column_reference m.0 (lower (g.name st node))) columns
                            (column_reference m.0 (lower (g.name st node))),
                      )),
                ),
              )
        ]

    visit_column-keeps :
        (x y : Node) (columns columns' : List Text)
        → visit_column g st tables allowed_schema x columns ≡ ok columns'
        → IsAccepted allowed_schema tables y columns
        → IsAccepted allowed_schema tables y columns'
    unfolding visit_column
    visit_column-keeps x y columns columns' h before =
        elim (Bool-cases (is_empty (lower (g.name st x)))) [
          | inl nameless ↦
              subst (IsAccepted allowed_schema tables y) (ok_inj (rw nameless at h)) before
          | inr named ↦
              let (m, r, granted, e) = check_column_sound x columns columns' (rw named at h) in
              rw e (grown (column_reference m.0 (lower (g.name st x))) before)
        ]
      where
        grown :
            (ref : Text)
            → IsAccepted allowed_schema tables y columns
            → IsAccepted allowed_schema tables y (append_new ref columns)
        grown ref (inl n) = inl n
        grown ref (inr (m, r, granted, l)) = inr (
          m,
          r,
          granted,
          ground
              (arith, contains-append_new ref columns (column_reference m.0 (lower (g.name st y)))),
        )

    -- When the stage succeeds, the statement selects no star, at least one column is referenced,
    -- and every `Column` node is accepted.
    pub collect_referenced_columns_sound :
        (columns : List Text)
        → collect_referenced_columns g st tables allowed_schema ≡ ok columns
        → (is_empty (g.find_all st (g.root st) star) ≡ true)
          × ((node : Node)
              → In node (g.find_all st (g.root st) column)
              → IsAccepted allowed_schema tables node columns)
          × (is_empty columns ≡ false)
    unfolding collect_referenced_columns
    collect_referenced_columns_sound columns h =
        let (no_star, h₁) = raise_if-then (not (is_empty (g.find_all st (g.root st) star))) _ _ h in
        let (cs, looped, rest) =
          >>=-eq-ok
            (for_each (g.find_all st (g.root st) column) []
              (visit_column g st tables allowed_schema))
            _ h₁ in
        let (some_column, e) = raise_if-then (is_empty cs) _ _ rest in
        let (_, accepted) =
          for_each_sound (λ _. Unit {0}) (IsAccepted allowed_schema tables)
            (visit_column g st tables allowed_schema) visit_column_sound visit_column-keeps
            (g.find_all st (g.root st) column) [] cs looped tt in
        rw (← ok_inj e) (ground arith, accepted, some_column)

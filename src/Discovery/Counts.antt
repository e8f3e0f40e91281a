-- ===== src/Discovery/Counts.antt =====
-- The counts of the result, for schemas that are named once.
use multi_tenant_data_chat_p.Shared.{
  suc, ◌+◌, ◌≡◌, refl, sym, ap, Bool, false, List, [], ◌∷◌, map, length, contains, filter_by,
  ==_iff, ◌==◌, arith,
}
use multi_tenant_data_chat_p.Shared.Text.{Text, text_eq}
use multi_tenant_data_chat_p.Discovery.{
  TableRow, SourceRows, table_key_eq, column_key_eq, count_tables,
}
use multi_tenant_data_chat_p.Discovery.Meaning.{select, table_of, schema_of}

-- Names that no two positions share.
abbrev pub AreDistinct : List Text → Type 0
AreDistinct [] = Unit
AreDistinct (name ∷ names) = (contains names name ≡ false) × AreDistinct names

length-select :
    {A B : Type 0} (p : A → Bool) (f : A → B) (xs : List A)
    → length (select p f xs) ≡ length (filter_by p xs)
length-select p f [] = refl
length-select p f (x ∷ xs) = ground (arith, length-select p f xs)

length-filter_by_split :
    (name : Text) (names : List Text) (rows : List TableRow)
    → contains names name ≡ false
    → length (filter_by (λ (t : TableRow). contains (name ∷ names) t.table_schema) rows)
      ≡ length (filter_by (λ (t : TableRow). name == t.table_schema) rows)
        + length (filter_by (λ (t : TableRow). contains names t.table_schema) rows)
length-filter_by_split name names [] h = omega arith
length-filter_by_split name names (t ∷ rows) h = ground (
  arith,
  length-filter_by_split name names rows,
  ==_iff name t.table_schema,
  ==_iff t.table_schema name,
)

none_listed :
    (rows : List TableRow)
    → length (filter_by (λ (t : TableRow). contains {A = Text} [] t.table_schema) rows) ≡ 0
none_listed [] = refl
none_listed (t ∷ rows) = none_listed rows

pub length-map-schema_of :
    (rows : SourceRows) (names : List Text) → length (map (schema_of rows) names) ≡ length names
length-map-schema_of rows [] = refl
length-map-schema_of rows (name ∷ names) = ap suc (length-map-schema_of rows names)

pub count_tables_lem :
    (rows : SourceRows) (names : List Text)
    → AreDistinct names
    → count_tables (map (schema_of rows) names)
      ≡ length (filter_by (λ (t : TableRow). contains names t.table_schema) rows.table_rows)
unfolding count_tables schema_of
count_tables_lem rows [] h = sym (none_listed rows.table_rows)
count_tables_lem rows (name ∷ names) h = omega (
  arith,
  length-select (λ (t : TableRow). name == t.table_schema) (table_of rows) rows.table_rows,
  count_tables_lem rows names h.1,
  length-filter_by_split name names rows.table_rows h.0,
)

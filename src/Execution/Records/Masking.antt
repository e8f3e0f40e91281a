-- ===== src/Execution/Records/Masking.antt =====
-- Which mask the values of a result get.
use multi_tenant_data_chat_p.Shared.{
  ℕ, ◌≡◌, refl, sym, ap, subst, ◌∙◌, Option, none, some, List, [], ◌∷◌, In, here, there, Result, ok,
  ok_inj, >>=-eq-ok, for_each, some_inj,
}
use multi_tenant_data_chat_p.Shared.Text.{Text, text_eq, lower}
use multi_tenant_data_chat_p.Shared.Dict.{Dict, values, get, put, get-put_self, get-put_ne}
use multi_tenant_data_chat_p.Values.{Value}
use multi_tenant_data_chat_p.Permissions.{AllowedColumn, AllowedTable, AllowedSchema}
use multi_tenant_data_chat_p.Execution.Serialize.{serialize_database_value}
use multi_tenant_data_chat_p.Execution.Masks.{
  apply_mask, add_mask, add_masks, add_table_masks, get_column_masks,
}
use multi_tenant_data_chat_p.Execution.Records.{Record, Row, serialize_item, serialize_record}

module _ (b64encode : List ℕ → Text) (repr : Value → Text) (sha256 : Text → Text)
    (column_masks : Dict Text Text) where
  abbrev pub masked_value : Text → Value → Result (Unit {0}) Value
  masked_value name v =
      apply_mask repr sha256 (serialize_database_value b64encode v) (get column_masks (lower name))

  -- The value of a row comes from an item of the record of that name, serialized, under the mask
  -- of the name.
  abbrev pub IsMasked : Record → Text → Value → Type 0
  IsMasked xs name w = (v : Value) × In (name, v) xs × (masked_value name v ≡ ok w)

  AreMasked : Record → Row → Type 0
  AreMasked xs row = (name : Text) (w : Value) → get row name ≡ some w → IsMasked xs name w

  serialize_item-AreMasked :
      (xs : Record) (k : Text) (v : Value) (row row' : Row)
      → In (k, v) xs
      → AreMasked xs row
      → serialize_item b64encode repr sha256 column_masks (k, v) row ≡ ok row'
      → AreMasked xs row'
  unfolding serialize_item AreMasked
  serialize_item-AreMasked xs k v row row' i inv h name w e =
      let (m, masked, written) = >>=-eq-ok (masked_value k v) _ h in
      let found : get (put row k m) name ≡ some w = ap (λ d. get d name) (ok_inj written) ∙ e in
      elim (text_eq.dec name k) [
        | yes p ↦
            let same : m ≡ w =
              some_inj (sym (get-put_self row k m) ∙ ap (get (put row k m)) (sym p) ∙ found) in
            (
              v,
              subst (λ n. In (n, v) xs) (sym p) i,
              ap (λ n. masked_value n v) p ∙ masked ∙ ap ok same,
            )
        | no n ↦ inv name w (sym (get-put_ne row k m name n) ∙ found)
      ]

  serialize_items-AreMasked :
      (all xs : Record) (row row' : Row)
      → ((x : Text × Value) → In x xs → In x all)
      → AreMasked all row
      → for_each xs row (serialize_item b64encode repr sha256 column_masks) ≡ ok row'
      → AreMasked all row'
  unfolding for_each
  serialize_items-AreMasked all [] row row' l inv h = subst (AreMasked all) (ok_inj h) inv
  serialize_items-AreMasked all ((k, v) ∷ xs) row row' l inv h =
      let (row₁, first, rest) =
        >>=-eq-ok (serialize_item b64encode repr sha256 column_masks (k, v) row) _ h in
      serialize_items-AreMasked all xs row₁ row' (λ x i. l x (there i))
        (serialize_item-AreMasked all k v row row₁ (l (k, v) (here refl)) inv first) rest

  -- Every value of a serialized row is a value of the record under that column name, serialized
  -- and then masked by the mask of the column name in lower case, if there is one.
  pub serialize_record-IsMasked :
      (xs : Record) (row : Row) (name : Text) (w : Value)
      → serialize_record b64encode repr sha256 column_masks xs ≡ ok row
      → get row name ≡ some w
      → IsMasked xs name w
  unfolding serialize_record AreMasked get
  serialize_record-IsMasked xs row name w h =
      serialize_items-AreMasked xs xs [] row (λ x i. i) (λ name w e. cc) h name w

-- A mask of that name is known.
abbrev pub HasMask : Text → Dict Text Text → Type 0
HasMask key d = (m : Text) × (get d key ≡ some m)

add_mask-keeps :
    (key : Text) (c : AllowedColumn) (d : Dict Text Text)
    → HasMask key d
    → HasMask key (add_mask c d)
unfolding add_mask
add_mask-keeps key c d (m, found) = kept c.mask_type
  where
    kept : (o : Option Text) → HasMask key (elim o [ none ↦ d | some m ↦ put d (lower c.name) m ])
    kept none = (m, found)
    kept (some n) = elim (text_eq.dec key (lower c.name)) [
      | yes p ↦ (n, ap (get (put d (lower c.name) n)) p ∙ get-put_self d (lower c.name) n)
      | no differ ↦ (m, get-put_ne d (lower c.name) n key differ ∙ found)
    ]

add_mask-HasMask :
    (c : AllowedColumn) (d : Dict Text Text) {m : Text}
    → c.mask_type ≡ some m
    → HasMask (lower c.name) (add_mask c d)
unfolding add_mask
add_mask-HasMask c d {m} e = written c.mask_type e
  where
    written :
        (o : Option Text)
        → o ≡ some m
        → HasMask (lower c.name) (elim o [ none ↦ d | some m ↦ put d (lower c.name) m ])
    written none q = cc
    written (some n) q = (n, get-put_self d (lower c.name) n)

add_masks-keeps :
    (key : Text) (cs : List AllowedColumn) (d : Dict Text Text)
    → HasMask key d
    → HasMask key (add_masks cs d)
unfolding add_masks
add_masks-keeps key [] d h = h
add_masks-keeps key (c ∷ cs) d h = add_masks-keeps key cs _ (add_mask-keeps key c d h)

add_masks-HasMask :
    (c : AllowedColumn) (cs : List AllowedColumn) (d : Dict Text Text) {m : Text}
    → In c cs
    → c.mask_type ≡ some m
    → HasMask (lower c.name) (add_masks cs d)
unfolding add_masks
add_masks-HasMask c [] d i e = elim i [ ]
add_masks-HasMask c (x ∷ cs) d (there i) e = add_masks-HasMask c cs _ i e
add_masks-HasMask c (x ∷ cs) d (here p) e =
    add_masks-keeps (lower c.name) cs _
      (subst (λ y. HasMask (lower c.name) (add_mask y d)) p (add_mask-HasMask c d e))

add_table_masks-keeps :
    (key : Text) (ts : List AllowedTable) (d : Dict Text Text)
    → HasMask key d
    → HasMask key (add_table_masks ts d)
unfolding add_table_masks
add_table_masks-keeps key [] d h = h
add_table_masks-keeps key (t ∷ ts) d h =
    add_table_masks-keeps key ts _ (add_masks-keeps key (values t.columns) d h)

add_table_masks-HasMask :
    (c : AllowedColumn) (t : AllowedTable) (ts : List AllowedTable) (d : Dict Text Text) {m : Text}
    → In t ts
    → In c (values t.columns)
    → c.mask_type ≡ some m
    → HasMask (lower c.name) (add_table_masks ts d)
unfolding add_table_masks
add_table_masks-HasMask c t [] d i j e = elim i [ ]
add_table_masks-HasMask c t (x ∷ ts) d (there i) j e = add_table_masks-HasMask c t ts _ i j e
add_table_masks-HasMask c t (x ∷ ts) d (here p) j e = add_table_masks-keeps (lower c.name) ts _ (
    subst (λ (y : AllowedTable). HasMask (lower c.name) (add_masks (values y.columns) d)) p
      (add_masks-HasMask c (values t.columns) d j e))

-- A result column that has, up to case, the name of a masked column of any allowed table gets some
-- mask.
pub get_column_masks-HasMask :
    (allowed_schema : AllowedSchema) (t : AllowedTable) (c : AllowedColumn) (m name : Text)
    → In t (values allowed_schema.tables)
    → In c (values t.columns)
    → c.mask_type ≡ some m
    → lower name ≡ lower c.name
    → HasMask (lower name) (get_column_masks allowed_schema)
unfolding get_column_masks
get_column_masks-HasMask allowed_schema t c m name i j e p =
    subst (λ key. HasMask key (get_column_masks allowed_schema)) (sym p)
      (add_table_masks-HasMask c t (values allowed_schema.tables) [] i j e)

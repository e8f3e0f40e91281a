-- ===== src/Execution/Masks.antt =====
-- The column masks of services/database/query_executor.py.
pub mod Hiding
use multi_tenant_data_chat_p.Shared.{
  ℕ, ◌+◌, ◌-◌, max, Bool, true, false, Option, none, some, List, [], ◌∷◌, ◌++◌, Result, ok, err,
  length, take, drop, replicate, contains, leb, ◌==◌, nat_eq, if◌then◌else◌,
}
use multi_tenant_data_chat_p.Shared.Text.{Text, text, text_eq, lower}
use multi_tenant_data_chat_p.Shared.Dict.{Dict, values, get, put}
use multi_tenant_data_chat_p.Values.{Value, null, bool, str}
use multi_tenant_data_chat_p.Permissions.{AllowedColumn, AllowedTable, AllowedSchema}

-- `str(value)`: a text is itself and a Boolean its name; that of another value is a parameter.
unfoldable pub str_of : (Value → Text) → Value → Text
str_of repr (str t) = t
str_of repr (bool true) = text "True"
str_of repr (bool false) = text "False"
str_of repr null = text "None"
str_of repr v = repr v

-- `if value is None: return None`
unfoldable pub unless_null : Value → Text → Option Text
unless_null null t = none
unless_null _ t = some t

unfoldable pub stars : ℕ → Text
stars n = replicate n b'*'

unfoldable pub mask_full : Value → Option Text
unfolding unless_null
mask_full value = unless_null value (text "********")

unfoldable pub partial_text : Text → Text
unfolding stars
partial_text s =
    let n = length s in if leb n 4 then stars n else take 2 s ++ stars (n - 4) ++ drop (n - 2) s

-- `text.split("@", 1)` of a text that has an `@`.
unfoldable pub split_at : Text → Text × Text
unfolding nat_eq
split_at [] = ([], [])
split_at (c ∷ s) = let rest = split_at s in if c == b'@' then ([], s) else (c ∷ rest.0, rest.1)

unfoldable pub masked_local_part : Text → Text
unfolding stars
masked_local_part [] = text "***"
masked_local_part (c ∷ []) = c ∷ text "***"
masked_local_part (c ∷ d ∷ s) = c ∷ stars (max (length (d ∷ s)) 3)

unfoldable pub email_text : Text → Text
unfolding partial_text split_at masked_local_part nat_eq
email_text s =
    let parts = split_at s in
    if contains s b'@' then masked_local_part parts.0 ++ (b'@' ∷ parts.1) else partial_text s

-- `sha256` is the hexadecimal digest of the UTF-8 encoding of a text.
module _ (repr : Value → Text) (sha256 : Text → Text) where
  unfoldable pub mask_partial : Value → Option Text
  unfolding str_of unless_null partial_text
  mask_partial value = unless_null value (partial_text (str_of repr value))

  unfoldable pub mask_email : Value → Option Text
  unfolding str_of unless_null email_text
  mask_email value = unless_null value (email_text (str_of repr value))

  unfoldable pub mask_hash : Value → Option Text
  unfolding str_of unless_null
  mask_hash value = unless_null value (sha256 (str_of repr value))

  unfoldable pub masks : Dict Text (Value → Option Text)
  unfolding mask_full mask_partial mask_email mask_hash
  masks =
      (text "full", mask_full)
      ∷ (text "partial", mask_partial)
      ∷ (text "email", mask_email)
      ∷ (text "hash", mask_hash)
      ∷ []

  unfoldable pub optional_text : Option Text → Value
  optional_text none = null
  optional_text (some t) = str t

  -- An error is a mask that is not supported.
  unfoldable pub apply_mask : Value → Option Text → Result (Unit {0}) Value
  unfolding masks get text_eq optional_text
  apply_mask value none = ok value
  apply_mask value (some mask_type) = elim (get masks mask_type) [
    | none ↦ err tt
    | some mask_function ↦ ok (optional_text (mask_function value))
  ]

unfoldable pub add_mask : AllowedColumn → Dict Text Text → Dict Text Text
unfolding put text_eq lower
add_mask c d = elim c.mask_type [ none ↦ d | some m ↦ put d (lower c.name) m ]

unfoldable pub add_masks : List AllowedColumn → Dict Text Text → Dict Text Text
unfolding add_mask
add_masks [] d = d
add_masks (c ∷ cs) d = add_masks cs (add_mask c d)

unfoldable pub add_table_masks : List AllowedTable → Dict Text Text → Dict Text Text
unfolding add_masks values
add_table_masks [] d = d
add_table_masks (t ∷ ts) d = add_table_masks ts (add_masks (values t.columns) d)

-- A later column of the same name takes the place of an earlier one.
unfoldable pub get_column_masks : AllowedSchema → Dict Text Text
unfolding add_table_masks values
get_column_masks allowed_schema = add_table_masks (values allowed_schema.tables) []

-- ===== src/Execution/Records.antt =====
-- `serialize_record` of services/database/query_executor.py, and which mask a column gets.
pub mod Masking
use multi_tenant_data_chat_p.Shared.{
  ℕ, ◌≡◌, refl, sym, ap, subst, ◌∙◌, ◌⊎◌, inl, inr, Option, none, some, List, [], ◌∷◌, In, here,
  there, Result, ok, err, ok_inj, ◌>>=◌, >>=-eq-ok, for_each, some_inj,
}
use multi_tenant_data_chat_p.Shared.Text.{Text, text_eq, lower}
use multi_tenant_data_chat_p.Shared.Dict.{Dict, get, put, get-put_either}
use multi_tenant_data_chat_p.Values.{Value}
use multi_tenant_data_chat_p.Execution.Serialize.{serialize_database_value}
use multi_tenant_data_chat_p.Execution.Masks.{apply_mask}

-- `asyncpg.Record`: the names may repeat.
abbrev pub Record : Type 0
Record = List (Text × Value)

abbrev pub Row : Type 0
Row = Dict Text Value

module _ (b64encode : List ℕ → Text) (repr : Value → Text) (sha256 : Text → Text) where
  module _ (column_masks : Dict Text Text) where
    -- The body of the loop over the items of a record.
    unfoldable pub serialize_item : Text × Value → Row → Result (Unit {0}) Row
    unfolding apply_mask get lower text_eq put serialize_database_value
    serialize_item (column_name, value) row = do
      masked ←
          apply_mask repr sha256 (serialize_database_value b64encode value)
            (get column_masks (lower column_name))
      ok (put row column_name masked)

    unfoldable pub serialize_record : Record → Result (Unit {0}) Row
    unfolding for_each serialize_item
    serialize_record record_ = for_each record_ [] serialize_item

-- ===== src/Execution/Serialize.antt =====
-- `serialize_database_value` of services/database/query_executor.py.
use mathlib.Core.Path.{ap₂}
use multi_tenant_data_chat_p.Shared.{ℕ, ◌≡◌, refl, ap, Bool, true, false, ◌&&◌, &&-true, List}
use multi_tenant_data_chat_p.Shared.Text.{Text}
use multi_tenant_data_chat_p.Values.{
  Value, null, bool, int, float, str, bytes, uuid, datetime, date, decimal, tuple, list, dict,
  other, Values, nil, cons, Fields, end, field, str_uuid,
}

-- `base64.b64encode` is a parameter.
module _ (b64encode : List ℕ → Text) where
  unfoldable mutual
    pub serialize_database_value : Value → Value
    serialize_database_value null = null
    serialize_database_value (uuid n) = str (str_uuid n)
    serialize_database_value (datetime t) = str t
    serialize_database_value (date t) = str t
    serialize_database_value (decimal t) = str t
    serialize_database_value (bytes bs) = str (b64encode bs)
    serialize_database_value (tuple vs) = list (serialize_items vs)
    serialize_database_value (list vs) = list (serialize_items vs)
    serialize_database_value (dict fs) = dict (serialize_fields fs)
    serialize_database_value (str t) = str t
    serialize_database_value (int n) = int n
    serialize_database_value (float r) = float r
    serialize_database_value (bool b) = bool b
    serialize_database_value (other t) = str t

    pub serialize_items : Values → Values
    serialize_items nil = nil
    serialize_items (cons v vs) = cons (serialize_database_value v) (serialize_items vs)

    pub serialize_fields : Fields → Fields
    serialize_fields end = end
    serialize_fields (field k v fs) = field k (serialize_database_value v) (serialize_fields fs)

-- The values that `json.dumps` writes.
unfoldable mutual
  pub is_json : Value → Bool
  is_json null = true
  is_json (bool b) = true
  is_json (int n) = true
  is_json (float r) = true
  is_json (str t) = true
  is_json (list vs) = are_json vs
  is_json (dict fs) = has_json fs
  is_json _ = false

  pub are_json : Values → Bool
  are_json nil = true
  are_json (cons v vs) = is_json v && are_json vs

  pub has_json : Fields → Bool
  has_json end = true
  has_json (field k v fs) = is_json v && has_json fs

module _ (b64encode : List ℕ → Text) where
  mutual
    unfolding serialize_database_value serialize_items serialize_fields is_json are_json has_json

    serialize-is_json : (v : Value) → is_json (serialize_database_value b64encode v) ≡ true
    serialize-is_json null = refl
    serialize-is_json (uuid n) = refl
    serialize-is_json (datetime t) = refl
    serialize-is_json (date t) = refl
    serialize-is_json (decimal t) = refl
    serialize-is_json (bytes bs) = refl
    serialize-is_json (tuple vs) = serialize_items-are_json vs
    serialize-is_json (list vs) = serialize_items-are_json vs
    serialize-is_json (dict fs) = serialize_fields-has_json fs
    serialize-is_json (str t) = refl
    serialize-is_json (int n) = refl
    serialize-is_json (float r) = refl
    serialize-is_json (bool b) = refl
    serialize-is_json (other t) = refl

    serialize_items-are_json : (vs : Values) → are_json (serialize_items b64encode vs) ≡ true
    serialize_items-are_json nil = refl
    serialize_items-are_json (cons v vs) =
        rw (serialize-is_json v, serialize_items-are_json vs) refl

    serialize_fields-has_json : (fs : Fields) → has_json (serialize_fields b64encode fs) ≡ true
    serialize_fields-has_json end = refl
    serialize_fields-has_json (field k v fs) =
        rw (serialize-is_json v, serialize_fields-has_json fs) refl

    serialize_json : (v : Value) → is_json v ≡ true → serialize_database_value b64encode v ≡ v
    serialize_json null h = refl
    serialize_json (uuid n) h = cc
    serialize_json (datetime t) h = cc
    serialize_json (date t) h = cc
    serialize_json (decimal t) h = cc
    serialize_json (bytes bs) h = cc
    serialize_json (tuple vs) h = cc
    serialize_json (list vs) h = ap list (serialize_items_json vs h)
    serialize_json (dict fs) h = ap dict (serialize_fields_json fs h)
    serialize_json (str t) h = refl
    serialize_json (int n) h = refl
    serialize_json (float r) h = refl
    serialize_json (bool b) h = refl
    serialize_json (other t) h = cc

    serialize_items_json : (vs : Values) → are_json vs ≡ true → serialize_items b64encode vs ≡ vs
    serialize_items_json nil h = refl
    serialize_items_json (cons v vs) h =
        let (head, tail) = &&-true h in
        ap₂ cons (serialize_json v head) (serialize_items_json vs tail)

    serialize_fields_json : (fs : Fields) → has_json fs ≡ true → serialize_fields b64encode fs ≡ fs
    serialize_fields_json end h = refl
    serialize_fields_json (field k v fs) h =
        let (head, tail) = &&-true h in
        ap₂ (field k) (serialize_json v head) (serialize_fields_json fs tail)

  -- Every database value is serialized to a JSON value, and a JSON value is left as it is.
  pub serialize_database_value_lem :
      (v : Value)
      → (is_json (serialize_database_value b64encode v) ≡ true)
        × (is_json v ≡ true → serialize_database_value b64encode v ≡ v)
  serialize_database_value_lem v = (serialize-is_json v, serialize_json v)

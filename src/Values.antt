-- ===== src/Values.antt =====
-- Python values as the platform meets them in JSON documents (`row_filter`, metadata) and in
-- database records. A value whose text is made by a formatter of the standard library carries
-- that text: the `isoformat()` of a date, the `str()` of a `Decimal`, the `repr()` of a float.
-- The keys of a dict are texts, as they are in JSON.
use multi_tenant_data_chat_p.Shared.{
  ℕ, zero, suc, ◌+◌, ◌-◌, ◌/◌, ◌%◌, Bool, true, false, not, ◌||◌, Option, none, some, List, [], ◌∷◌,
  ◌++◌, ltb, ◌==◌, take, drop, if◌then◌else◌,
}
use multi_tenant_data_chat_p.Shared.Text.{Text, text, text_eq}

-- `negsuc n` is -(n + 1).
pub data ℤ : Type 0 where
  pos : ℕ → ℤ
  negsuc : ℕ → ℤ

mutual
  pub data Value : Type 0 where
    null : Value
    bool : Bool → Value
    int : ℤ → Value
    float : Text → Value
    str : Text → Value
    bytes : List ℕ → Value
    uuid : ℕ → Value
    datetime : Text → Value
    date : Text → Value
    decimal : Text → Value
    tuple : Values → Value
    list : Values → Value
    dict : Fields → Value
    other : Text → Value

  pub data Values : Type 0 where
    nil : Values
    cons : Value → Values → Values

  pub data Fields : Type 0 where
    end : Fields
    field : Text → Value → Fields → Fields

-- `d.get(k)`
unfoldable pub field_value : Fields → Text → Option Value
field_value end k = none
field_value (field j v fs) k = if k == j then some v else field_value fs k

-- `d[k] = v`: a key that is there keeps its place.
unfoldable pub put_field : Fields → Text → Value → Fields
put_field end k v = field k v end
put_field (field j w fs) k v = if k == j then field j v fs else field j w (put_field fs k v)

-- The items of a list value.
abbrev pub items : Values → List Value
items nil = []
items (cons v vs) = v ∷ items vs

hex_digit : ℕ → ℕ
hex_digit d = if ltb d 10 then b'0' + d else b'a' + (d - 10)

-- The `k` lowest hexadecimal digits of `n`, in front of `rest`.
hex_digits : ℕ → ℕ → Text → Text
unfolding hex_digit
hex_digits zero n rest = rest
hex_digits (suc k) n rest = hex_digits k (n / 16) (hex_digit (n % 16) ∷ rest)

-- `str(uuid)`: 32 digits in groups of 8, 4, 4, 4 and 12.
unfoldable pub str_uuid : ℕ → Text
unfolding hex_digits
str_uuid n =
    let digits = hex_digits 32 n [] in
    take 8 digits
    ++ (b'-'
        ∷ (take 4 (drop 8 digits)
            ++ (b'-'
                ∷ (take 4 (drop 12 digits)
                    ++ (b'-' ∷ (take 4 (drop 16 digits) ++ (b'-' ∷ drop 20 digits)))))))

-- `bool(value)`
unfoldable pub truthy : Value → Bool
unfolding text_eq
truthy null = false
truthy (bool b) = b
truthy (int (pos zero)) = false
truthy (float repr) = not (repr == text "0.0" || repr == text "-0.0")
truthy (str []) = false
truthy (bytes []) = false
truthy (tuple nil) = false
truthy (list nil) = false
truthy (dict end) = false
truthy _ = true

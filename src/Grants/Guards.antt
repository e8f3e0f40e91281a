-- ===== src/Grants/Guards.antt =====
-- What a request has to meet that `check_permission` lets through.
use multi_tenant_data_chat_p.Shared.{
  ℕ, ◌≡◌, refl, sym, ap, ◌∙◌, ◌⊎◌, inl, inr, Bool, true, false, not, ◌&&◌, ◌||◌, &&-true, Option,
  none, some, List, [], ◌∷◌, map, contains, filter_by, is_some, In, here, there, In-filter_by,
  In-filter_by_of, ok, >>=-eq-ok, raise_if-then, raise_if-eq-ok, or_raise, or_raise-eq-ok,
  Bool-cases, ◌==◌, ==_iff, ==_self, nat_eq, arith,
}
use multi_tenant_data_chat_p.Models.{User, DatabaseTable, DatabaseColumn, TablePermission, Store}
use multi_tenant_data_chat_p.Permissions.Effective.{find_connection}
use multi_tenant_data_chat_p.Permissions.Repository.{is_value}
use multi_tenant_data_chat_p.Grants.Schemas.{ColumnPermissionInput, TablePermissionCreate}
use multi_tenant_data_chat_p.Grants.{
  administrator_required, connection_not_found, table_not_found, duplicate_columns,
  columns_not_found, duplicate_permission, scalar_one_or_none, validate_permission_table,
  validate_permission_subject, has_duplicates, is_subset, validate_permission_columns, is_subject,
  find_existing_table_permission, check_permission,
}

scalar_one_or_none-some :
    {A : Type 0} (rows : List A) (a : A) → scalar_one_or_none rows ≡ ok (some a) → In a rows
unfolding scalar_one_or_none
scalar_one_or_none-some [] a h = cc
scalar_one_or_none-some (b ∷ []) a h = here (cc h)
scalar_one_or_none-some (b ∷ c ∷ rows) a h = cc

scalar_one_or_none-none :
    {A : Type 0} (rows : List A) (a : A) → scalar_one_or_none rows ≡ ok none → ¬ In a rows
unfolding scalar_one_or_none
scalar_one_or_none-none [] a h i = elim i [ ]
scalar_one_or_none-none (b ∷ []) a h i = cc h
scalar_one_or_none-none (b ∷ c ∷ rows) a h i = cc h

-- The table is one of the tenant and of the connection.
pub record IsTableOf (tables : List DatabaseTable) (tenant_id connection_id table_id : ℕ)
    : Type 0 where
  pub table : DatabaseTable
  pub stored : In table tables
  pub same_id : table.id ≡ table_id
  pub same_tenant : table.tenant_id ≡ tenant_id
  pub same_connection : table.connection_id ≡ connection_id

pub validate_permission_table-IsTableOf :
    (st : Store) (tenant_id connection_id table_id : ℕ) (t : DatabaseTable)
    → validate_permission_table st tenant_id connection_id table_id ≡ ok t
    → IsTableOf st.tables tenant_id connection_id table_id
unfolding validate_permission_table
validate_permission_table-IsTableOf st tenant_id connection_id table_id t h =
    let matches = λ (t : DatabaseTable).
      t.id == table_id && t.tenant_id == tenant_id && t.connection_id == connection_id in
    let (o, one, given) =
      >>=-eq-ok (scalar_one_or_none (filter_by matches st.tables)) (λ o. or_raise o table_not_found)
        h in
    let found = or_raise-eq-ok o table_not_found given in
    let (i, q) = In-filter_by matches t st.tables (
      scalar_one_or_none-some (filter_by matches st.tables) t
        (one ∙ ap (λ (o : Option DatabaseTable). ok o) found)) in
    record {
      table = t;
      stored = i;
      same_id = ground (arith, q, ==_iff t.id table_id);
      same_tenant = ground (arith, q, ==_iff t.tenant_id tenant_id);
      same_connection = ground (arith, q, ==_iff t.connection_id connection_id);
    }

-- A column of the tenant and of the table has the id.
pub record IsColumnOf (columns : List DatabaseColumn) (tenant_id table_id column_id : ℕ)
    : Type 0 where
  pub column : DatabaseColumn
  pub stored : In column columns
  pub same_id : column.id ≡ column_id
  pub same_tenant : column.tenant_id ≡ tenant_id
  pub same_table : column.table_id ≡ table_id

is_subset-In : (ms ns : List ℕ) (n : ℕ) → is_subset ms ns ≡ true → In n ms → contains ns n ≡ true
unfolding is_subset
is_subset-In [] ns n h i = elim i [ ]
is_subset-In (m ∷ ms) ns n h (here e) = ap (contains ns) e ∙ (&&-true h).0
is_subset-In (m ∷ ms) ns n h (there i) = is_subset-In ms ns n (&&-true {a = contains ns m} h).1 i

contains-map :
    {A : Type 0} (key : A → ℕ) (xs : List A) (n : ℕ)
    → contains (map key xs) n ≡ true
    → (a : A) × In a xs × (key a ≡ n)
contains-map key [] n h = cc
contains-map key (x ∷ xs) n h = elim (Bool-cases (n == key x)) [
  | inl e ↦ (x, here refl, sym ((==_iff n (key x)).0 e))
  | inr f ↦ let (a, i, e) = contains-map key xs n (rw f at h) in (a, there i, e)
]

pub validate_permission_columns-IsColumnOf :
    (st : Store) (tenant_id table_id : ℕ) (column_ids : List ℕ) (n : ℕ)
    → validate_permission_columns st tenant_id table_id column_ids ≡ ok tt
    → In n column_ids
    → IsColumnOf st.columns tenant_id table_id n
unfolding validate_permission_columns
validate_permission_columns-IsColumnOf st tenant_id table_id [] n h i = elim i [ ]
validate_permission_columns-IsColumnOf st tenant_id table_id (m ∷ ms) n h i =
    let column_ids = m ∷ ms in
    let matches = λ (c : DatabaseColumn).
      c.tenant_id == tenant_id && c.table_id == table_id && contains column_ids c.id in
    let valid = map (λ (c : DatabaseColumn). c.id) (filter_by matches st.columns) in
    let later = (raise_if-then (has_duplicates column_ids) duplicate_columns _ h).1 in
    let same =
      raise_if-eq-ok (not (is_subset valid column_ids && is_subset column_ids valid))
        columns_not_found later in
    let listed =
      is_subset-In column_ids valid n
        (both (is_subset valid column_ids) (is_subset column_ids valid) same) i in
    let (c, j, e) =
      contains-map (λ (c : DatabaseColumn). c.id) (filter_by matches st.columns) n listed in
    let (k, q) = In-filter_by matches c st.columns j in
    record {
      column = c;
      stored = k;
      same_id = e;
      same_tenant = ground (arith, q, ==_iff c.tenant_id tenant_id);
      same_table = ground (arith, q, ==_iff c.table_id table_id);
    }
  where
    both : (a b : Bool) → not (a && b) ≡ false → b ≡ true
    both true true h = refl
    both true false h = cc h
    both false b h = cc h

-- A stored permission is for the given role or the given user.
abbrev pub SharesSubject : TablePermission → Option ℕ → Option ℕ → Type 0
SharesSubject q role_id user_id =
    (n : ℕ) × (((q.role_id ≡ some n) × (role_id ≡ some n))
      ⊎ ((q.user_id ≡ some n) × (user_id ≡ some n)))

is_subject-same :
    (stored given : Option ℕ) (n : ℕ)
    → stored ≡ some n
    → given ≡ some n
    → is_subject stored given ≡ true
unfolding is_subject
is_subject-same stored given n e f = rw (f, is_subject) (rw (e, is_value) (==_self n))

find_existing-none :
    (st : Store) (tenant_id table_id : ℕ) (role_id user_id : Option ℕ) (q : TablePermission)
    → find_existing_table_permission st tenant_id table_id role_id user_id ≡ ok none
    → In q st.table_permissions
    → q.tenant_id ≡ tenant_id
    → q.table_id ≡ table_id
    → ¬ SharesSubject q role_id user_id
unfolding find_existing_table_permission
find_existing-none st tenant_id table_id role_id user_id q h i own same shared =
    let matches = λ (p : TablePermission).
      p.tenant_id == tenant_id
      && p.table_id == table_id
      && (is_subject p.role_id role_id || is_subject p.user_id user_id) in
    let subject : (is_subject q.role_id role_id || is_subject q.user_id user_id) ≡ true =
      subject_of shared in
    scalar_one_or_none-none (filter_by matches st.table_permissions) q h (
      In-filter_by_of matches q st.table_permissions i
        (ground (arith, subject, ==_iff q.tenant_id tenant_id, ==_iff q.table_id table_id)))
  where
    subject_of :
        SharesSubject q role_id user_id
        → (is_subject q.role_id role_id || is_subject q.user_id user_id) ≡ true
    subject_of (n, inl (e, f)) = ground (arith, is_subject-same q.role_id role_id n e f)
    subject_of (n, inr (e, f)) = ground (arith, is_subject-same q.user_id user_id n e f)

-- What the guards have seen to.
pub record IsPermitted (st : Store) (user : User) (request : TablePermissionCreate) : Type 0 where
  pub administrator : user.is_tenant_admin ≡ true
  pub own_table : IsTableOf st.tables user.tenant_id request.connection_id request.table_id
  pub own_columns :
      (n : ℕ)
      → In n (map (λ (c : ColumnPermissionInput). c.column_id) request.columns)
      → IsColumnOf st.columns user.tenant_id request.table_id n
  pub no_other :
      (q : TablePermission)
      → In q st.table_permissions
      → q.tenant_id ≡ user.tenant_id
      → q.table_id ≡ request.table_id
      → ¬ SharesSubject q request.role_id request.user_id

not-false : (b : Bool) → not b ≡ false → b ≡ true
not-false true h = refl
not-false false h = cc

is_some-none : {A : Type 0} (o : Option A) → is_some o ≡ false → o ≡ none
is_some-none none h = refl
is_some-none (some a) h = cc

pub check_permission-IsPermitted :
    (st : Store) (user : User) (request : TablePermissionCreate)
    → check_permission st user request ≡ ok tt
    → IsPermitted st user request
unfolding check_permission
check_permission-IsPermitted st user request h =
    let (admin, a) = raise_if-then (not user.is_tenant_admin) administrator_required _ h in
    let (c, b, d) =
      >>=-eq-ok
        (or_raise (find_connection st.connections user.tenant_id request.connection_id)
          connection_not_found)
        _ a in
    let (t, e, f) =
      >>=-eq-ok (validate_permission_table st user.tenant_id request.connection_id request.table_id)
        _ d in
    let (u, g, i) =
      >>=-eq-ok (validate_permission_subject st user.tenant_id request.role_id request.user_id) _
        f in
    let (v, j, k) =
      >>=-eq-ok
        (validate_permission_columns st user.tenant_id request.table_id
          (map (λ (c : ColumnPermissionInput). c.column_id) request.columns))
        _ i in
    let (o, l, m) =
      >>=-eq-ok
        (find_existing_table_permission st user.tenant_id request.table_id request.role_id
          request.user_id)
        _ k in
    let free = is_some-none o (raise_if-eq-ok (is_some o) duplicate_permission m) in
    record {
      administrator = not-false user.is_tenant_admin admin;
      own_table =
          validate_permission_table-IsTableOf st user.tenant_id request.connection_id
            request.table_id t e;
      own_columns = λ n q.
          validate_permission_columns-IsColumnOf st user.tenant_id request.table_id
            (map (λ (c : ColumnPermissionInput). c.column_id) request.columns) n j q;
      no_other = λ q p own same.
          find_existing-none st user.tenant_id request.table_id request.role_id request.user_id q
            (l ∙ ap (λ (o : Option TablePermission). ok o) free) p own same;
    }

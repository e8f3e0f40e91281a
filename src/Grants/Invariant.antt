-- ===== src/Grants/Invariant.antt =====
-- The stored permissions, and that `create_permission` keeps them well formed.
use multi_tenant_data_chat_p.Shared.{
  ℕ, ◌≡◌, refl, sym, ap, subst, ◌∙◌, ◌⊎◌, inl, inr, false, not, Option, none, some, List, [], ◌∷◌,
  ◌++◌, map, length, ltb, is_some, In, here, there, In-append, In-append_left, In-append_right, ok,
  ok_inj, >>=-eq-ok, raise_if-then, raise_if-eq-ok, if◌then◌else◌,
}
use multi_tenant_data_chat_p.Models.{User, TablePermission, ColumnPermission, Store}
use multi_tenant_data_chat_p.Grants.Schemas.{
  ColumnPermissionInput, TablePermissionCreate, validate_group, validate_columns, validate_request,
  validate_subject, too_many_columns, subject_not_single,
}
use multi_tenant_data_chat_p.Grants.{
  check_permission, new_permission, column_permission, create_table_permission, create_permission,
}
use multi_tenant_data_chat_p.Grants.Guards.{
  IsTableOf, IsColumnOf, SharesSubject, IsPermitted, check_permission-IsPermitted,
}

-- A permission is for a role or for a user, and not for both.
abbrev pub HasOneSubject : TablePermission → Type 0
HasOneSubject p =
    ((n : ℕ) × (p.role_id ≡ some n) × (p.user_id ≡ none))
    ⊎ ((n : ℕ) × (p.user_id ≡ some n) × (p.role_id ≡ none))

-- Every permission has one subject, is for a table of its tenant and of its connection, and is the
-- only one of its tenant for that table and subject; every column permission is of a stored
-- permission and for a column of that permission's table.
pub record IsWellFormed (st : Store) : Type 0 where
  pub one_subject : (p : TablePermission) → In p st.table_permissions → HasOneSubject p
  pub own_table :
      (p : TablePermission)
      → In p st.table_permissions
      → IsTableOf st.tables p.tenant_id p.connection_id p.table_id
  pub one_grant :
      (p q : TablePermission)
      → In p st.table_permissions
      → In q st.table_permissions
      → p.tenant_id ≡ q.tenant_id
      → p.table_id ≡ q.table_id
      → SharesSubject p q.role_id q.user_id
      → p ≡ q
  pub own_column :
      (c : ColumnPermission)
      → In c st.column_permissions
      → (p : TablePermission) × In p st.table_permissions
        × (p.id ≡ c.table_permission_id)
        × IsColumnOf st.columns p.tenant_id p.table_id c.column_id

single_subject :
    (role_id user_id : Option ℕ)
    → (if is_some role_id then is_some user_id else not (is_some user_id)) ≡ false
    → ((n : ℕ) × (role_id ≡ some n) × (user_id ≡ none))
      ⊎ ((n : ℕ) × (user_id ≡ some n) × (role_id ≡ none))
single_subject none none h = cc
single_subject none (some n) h = inr (n, refl, refl)
single_subject (some n) none h = inl (n, refl, refl)
single_subject (some n) (some m) h = cc

swapped :
    (p q : TablePermission)
    → SharesSubject p q.role_id q.user_id
    → SharesSubject q p.role_id p.user_id
swapped p q (n, inl (e, f)) = (n, inl (f, e))
swapped p q (n, inr (e, f)) = (n, inr (f, e))

one_subject_of :
    (request : TablePermissionCreate) (id : ℕ) (user : User)
    → validate_request request ≡ ok tt
    → HasOneSubject (new_permission id user request)
unfolding validate_request validate_subject new_permission
one_subject_of request id user h =
    let (a, filter_accepted, rest) = >>=-eq-ok (validate_group request.row_filter) _ h in
    let (few, rest') = raise_if-then (ltb 500 (length request.columns)) too_many_columns _ rest in
    let (b, columns_accepted, last) = >>=-eq-ok (validate_columns request.columns) _ rest' in
    single_subject request.role_id request.user_id (
      raise_if-eq-ok
        (if is_some request.role_id then is_some request.user_id else not (is_some request.user_id))
        subject_not_single last)

In-map_column :
    (id : ℕ) (columns : List ColumnPermissionInput) (c : ColumnPermission)
    → In c (map (column_permission id) columns)
    → (c.table_permission_id ≡ id)
      × In c.column_id (map (λ (c : ColumnPermissionInput). c.column_id) columns)
unfolding column_permission
In-map_column id [] c i = elim i [ ]
In-map_column id (x ∷ columns) c (here e) = (
  ap (λ (c : ColumnPermission). c.table_permission_id) e,
  here (ap (λ (c : ColumnPermission). c.column_id) e),
)
In-map_column id (x ∷ columns) c (there i) =
    let (e, j) = In-map_column id columns c i in (e, there j)

-- The item of a list with one more at its end.
In-last : {A : Type 0} (xs : List A) (a x : A) → In x (xs ++ (a ∷ [])) → In x xs ⊎ (x ≡ a)
In-last xs a x i = elim (In-append xs (a ∷ []) i) [ inl j ↦ inl j | inr j ↦ inr (only j) ]
  where
    only : In x (a ∷ []) → x ≡ a
    only (here e) = e
    only (there j) = elim j [ ]

module _ (st : Store) (user : User) (request : TablePermissionCreate) (id : ℕ) (w : IsWellFormed st)
    (accepted : validate_request request ≡ ok tt) (permitted : IsPermitted st user request) where
  created : TablePermission
  unfolding new_permission
  created = new_permission id user request

  after_creation : Store
  unfolding created create_table_permission
  after_creation = create_table_permission st created (map (column_permission id) request.columns)

  one_grant_after :
      (p q : TablePermission)
      → In p st.table_permissions ⊎ (p ≡ created)
      → In q st.table_permissions ⊎ (q ≡ created)
      → p.tenant_id ≡ q.tenant_id
      → p.table_id ≡ q.table_id
      → SharesSubject p q.role_id q.user_id
      → p ≡ q
  unfolding created
  one_grant_after p q (inl i) (inl j) e f s = w.one_grant p q i j e f s
  one_grant_after p q (inl i) (inr j) e f s = absurd (
      permitted.no_other p i (e ∙ ap (λ (x : TablePermission). x.tenant_id) j)
        (f ∙ ap (λ (x : TablePermission). x.table_id) j)
        (subst (λ (x : TablePermission). SharesSubject p x.role_id x.user_id) j s))
  one_grant_after p q (inr i) (inl j) e f s = absurd (
      permitted.no_other q j (sym e ∙ ap (λ (x : TablePermission). x.tenant_id) i)
        (sym f ∙ ap (λ (x : TablePermission). x.table_id) i)
        (subst (λ (x : TablePermission). SharesSubject q x.role_id x.user_id) i (swapped p q s)))
  one_grant_after p q (inr i) (inr j) e f s = i ∙ sym j

  own_table_after :
      (p : TablePermission)
      → In p st.table_permissions ⊎ (p ≡ created)
      → IsTableOf st.tables p.tenant_id p.connection_id p.table_id
  unfolding created
  own_table_after p (inl i) = w.own_table p i
  own_table_after p (inr e) =
      subst (λ (x : TablePermission). IsTableOf st.tables x.tenant_id x.connection_id x.table_id)
        (sym e) permitted.own_table

  one_subject_after :
      (p : TablePermission) → In p st.table_permissions ⊎ (p ≡ created) → HasOneSubject p
  unfolding created
  one_subject_after p (inl i) = w.one_subject p i
  one_subject_after p (inr e) =
      subst HasOneSubject (sym e) (one_subject_of request id user accepted)

  own_column_after :
      (c : ColumnPermission)
      → In c st.column_permissions ⊎ In c (map (column_permission id) request.columns)
      → (p : TablePermission) × In p (st.table_permissions ++ (created ∷ []))
        × (p.id ≡ c.table_permission_id)
        × IsColumnOf st.columns p.tenant_id p.table_id c.column_id
  unfolding created
  own_column_after c (inl i) =
      let (p, j, e, o) = w.own_column c i in (p, In-append_left (created ∷ []) j, e, o)
  own_column_after c (inr i) =
      let (e, j) = In-map_column id request.columns c i in
      (
        created,
        In-append_right st.table_permissions (here refl),
        sym e,
        permitted.own_columns c.column_id j,
      )

  IsWellFormed-after : IsWellFormed after_creation
  unfolding after_creation
  IsWellFormed-after = record {
    one_subject = λ p i. one_subject_after p (In-last st.table_permissions created p i);
    own_table = λ p i. own_table_after p (In-last st.table_permissions created p i);
    one_grant = λ p q i j.
        one_grant_after p q (In-last st.table_permissions created p i)
          (In-last st.table_permissions created q j);
    own_column = λ c i.
        own_column_after c
          (In-append st.column_permissions (map (column_permission id) request.columns) i);
  }

-- A request that the schema accepts and that creates a permission keeps the stored permissions well
-- formed: each still has exactly one subject, is for a table of its own tenant and connection and is
-- the only one for its subject and table, and each column permission is for a column of that table.
pub create_permission-IsWellFormed :
    (st : Store) (user : User) (request : TablePermissionCreate) (id : ℕ)
    {saved : TablePermission × List ColumnPermission} {after : Store}
    → IsWellFormed st
    → validate_request request ≡ ok tt
    → create_permission st user request id ≡ ok (saved, after)
    → IsWellFormed after
unfolding create_permission after_creation
create_permission-IsWellFormed st user request id w accepted h =
    let (t, checked, last) = >>=-eq-ok (check_permission st user request) _ h in
    subst IsWellFormed
      (ap (λ (x : (TablePermission × List ColumnPermission) × Store). x.1) (ok_inj last))
      (IsWellFormed-after st user request id w accepted
        (check_permission-IsPermitted st user request checked))

-- ===== src/Connections/Invariants.antt =====
-- Invariants of the stored connections over all runs of connection_service.py.
use multi_tenant_data_chat_p.Shared.{
  ℕ, ◌≡◌, sym, ap, subst, ◌∙◌, ◌≢◌, ◌⊎◌, inl, inr, Bool, true, false, not, Option, List, [], ◌∷◌,
  ◌++◌, In, here, there, In-append, In-append_left, In-filter_by, In-filter_by_of, ◌==◌, nat_eq,
  if_neg,
}
use multi_tenant_data_chat_p.Shared.Text.{Text}
use multi_tenant_data_chat_p.Models.{User, DatabaseConnection}
use multi_tenant_data_chat_p.Encryption.{Fernet}
use multi_tenant_data_chat_p.Execution.Connect.{Url, Parameters}
use multi_tenant_data_chat_p.Connections.{Probe, delete_connection}
use multi_tenant_data_chat_p.Connections.Steps.{
  Step, IsProbed, Change, added, changed, deleted, unchanged, IsWellFormed,
}
use multi_tenant_data_chat_p.Connections.Transitions.{
  In-save_connection, In-save_connection_of, Step-Change,
}

module _ (fernet : Fernet) (make_url : Text → Option Url)
    (probe : ℕ → Parameters → Bool → Probe) where
  -- The connections that are stored after some operations of some users, from none on.
  pub data Reachable : List DatabaseConnection → Type 0 where
    no_connections : Reachable []
    after :
        {user : User} {cs cs' : List DatabaseConnection}
        → Reachable cs
        → Step fernet make_url probe user cs cs'
        → Reachable cs'

  In-last :
      (cs : List DatabaseConnection) (c x : DatabaseConnection)
      → In x (cs ++ (c ∷ []))
      → In x cs ⊎ (x ≡ c)
  In-last cs c x i = elim (In-append cs (c ∷ []) i) [
    | inl old ↦ inl old
    | inr last ↦ inr (only last)
  ]
    where
      only : In x (c ∷ []) → x ≡ c
      only (here e) = e
      only (there i) = elim i [ ]

  In-deleted :
      (cs : List DatabaseConnection) (id : ℕ) (x : DatabaseConnection)
      → In x (delete_connection cs id)
      → In x cs
  unfolding delete_connection
  In-deleted cs id x i = (In-filter_by (λ (c : DatabaseConnection). not (c.id == id)) x cs i).0

  Change-keeps_IsWellFormed :
      (user : User) (cs cs' : List DatabaseConnection)
      → Change fernet make_url probe user cs cs'
      → IsWellFormed fernet make_url probe cs
      → IsWellFormed fernet make_url probe cs'
  Change-keeps_IsWellFormed user cs cs' (added c own fresh free p) w = record {
    one_id = λ x y i j e. elim (In-last cs c x i) [
      | inl k ↦ elim (In-last cs c y j) [
        | inl l ↦ w.one_id x y k l e
        | inr q ↦ absurd (fresh x k (e ∙ ap (λ (z : DatabaseConnection). z.id) q))
      ]
      | inr p' ↦ elim (In-last cs c y j) [
        | inl l ↦ absurd (fresh y l (sym e ∙ ap (λ (z : DatabaseConnection). z.id) p'))
        | inr q ↦ p' ∙ sym q
      ]
    ];
    one_name = λ x y i j e f. elim (In-last cs c x i) [
      | inl k ↦ elim (In-last cs c y j) [
        | inl l ↦ w.one_name x y k l e f
        | inr q ↦ absurd (
            free x k (e ∙ ap (λ (z : DatabaseConnection). z.tenant_id) q)
              (f ∙ ap (λ (z : DatabaseConnection). z.name) q))
      ]
      | inr p' ↦ elim (In-last cs c y j) [
        | inl l ↦ absurd (
            free y l (sym e ∙ ap (λ (z : DatabaseConnection). z.tenant_id) p')
              (sym f ∙ ap (λ (z : DatabaseConnection). z.name) p'))
        | inr q ↦ ap (λ (z : DatabaseConnection). z.id) (p' ∙ sym q)
      ]
    ];
  }
  Change-keeps_IsWellFormed user cs cs' (changed old c i same_id same_tenant own names p) w =
      record {
        one_id = λ x y i j e. elim (In-save_connection cs c x i) [
          | inl k ↦ elim (In-save_connection cs c y j) [
            | inl l ↦ k ∙ sym l
            | inr (l, n) ↦ absurd (n (sym e ∙ ap (λ (z : DatabaseConnection). z.id) k))
          ]
          | inr (k, n) ↦ elim (In-save_connection cs c y j) [
            | inl l ↦ absurd (n (e ∙ ap (λ (z : DatabaseConnection). z.id) l))
            | inr (l, m) ↦ w.one_id x y k l e
          ]
        ];
        one_name = λ x y i j e f. elim (In-save_connection cs c x i) [
          | inl k ↦ elim (In-save_connection cs c y j) [
            | inl l ↦ ap (λ (z : DatabaseConnection). z.id) (k ∙ sym l)
            | inr (l, n) ↦
                ap (λ (z : DatabaseConnection). z.id) k
                ∙ sym (
                    names y l (sym e ∙ ap (λ (z : DatabaseConnection). z.tenant_id) k)
                      (sym f ∙ ap (λ (z : DatabaseConnection). z.name) k))
          ]
          | inr (k, n) ↦ elim (In-save_connection cs c y j) [
            | inl l ↦
                names x k (e ∙ ap (λ (z : DatabaseConnection). z.tenant_id) l)
                  (f ∙ ap (λ (z : DatabaseConnection). z.name) l)
                ∙ sym (ap (λ (z : DatabaseConnection). z.id) l)
            | inr (l, m) ↦ w.one_name x y k l e f
          ]
        ];
      }
  Change-keeps_IsWellFormed user cs cs' (deleted old i own) w = record {
    one_id = λ x y i j. w.one_id x y (In-deleted cs old.id x i) (In-deleted cs old.id y j);
    one_name = λ x y i j. w.one_name x y (In-deleted cs old.id x i) (In-deleted cs old.id y j);
  }
  Change-keeps_IsWellFormed user cs cs' unchanged w = w

  Change-keeps_IsProbed :
      (user : User) (cs cs' : List DatabaseConnection)
      → Change fernet make_url probe user cs cs'
      → ((x : DatabaseConnection) → In x cs → IsProbed fernet make_url probe x)
      → (x : DatabaseConnection) → In x cs'
      → IsProbed fernet make_url probe x
  Change-keeps_IsProbed user cs cs' (added c own fresh free p) all x i = elim (In-last cs c x i) [
    | inl k ↦ all x k
    | inr q ↦ subst (IsProbed fernet make_url probe) (sym q) p
  ]
  Change-keeps_IsProbed user cs cs' (changed old c i _ _ _ _ p) all x j =
      elim (In-save_connection cs c x j) [
        | inl q ↦ subst (IsProbed fernet make_url probe) (sym q) p
        | inr (k, n) ↦ all x k
      ]
  Change-keeps_IsProbed user cs cs' (deleted old i own) all x j = all x (In-deleted cs old.id x j)
  Change-keeps_IsProbed user cs cs' unchanged all x i = all x i

  -- Whatever the users do, no two stored connections have one id, and no two of a tenant one name.
  pub Reachable-IsWellFormed :
      (cs : List DatabaseConnection) → Reachable cs → IsWellFormed fernet make_url probe cs
  Reachable-IsWellFormed cs no_connections = record {
    one_id = λ x y i. elim i [ ];
    one_name = λ x y i. elim i [ ];
  }
  Reachable-IsWellFormed cs (after {user} {cs = before} r s) =
      let w = Reachable-IsWellFormed before r in
      Change-keeps_IsWellFormed user before cs
        (Step-Change fernet make_url probe user before cs w s) w

  -- Whatever the users do, a stored connection whose status is `connected` is of PostgreSQL, and at
  -- the time that it bears the source database has answered to exactly the parameters that its
  -- details as they are now stored give: no change of the details outlives the status.
  pub Reachable-IsProbed :
      (cs : List DatabaseConnection) (c : DatabaseConnection)
      → Reachable cs
      → In c cs
      → IsProbed fernet make_url probe c
  Reachable-IsProbed cs c no_connections i = elim i [ ]
  Reachable-IsProbed cs c (after {user} {cs = before} r s) i =
      Change-keeps_IsProbed user before cs
        (Step-Change fernet make_url probe user before cs (Reachable-IsWellFormed before r) s)
        (λ x j. Reachable-IsProbed before x r j) c i

  -- An operation of a user neither changes, removes nor adds a connection of another tenant.
  pub Step-keeps_tenants :
      (user : User) (cs cs' : List DatabaseConnection) (c : DatabaseConnection)
      → Reachable cs
      → Step fernet make_url probe user cs cs'
      → c.tenant_id ≢ user.tenant_id
      → (In c cs → In c cs') × (In c cs' → In c cs)
  Step-keeps_tenants user cs cs' c r s other =
      kept w cs' (Step-Change fernet make_url probe user cs cs' w s)
    where
      w : IsWellFormed fernet make_url probe cs
      w = Reachable-IsWellFormed cs r

      kept :
          IsWellFormed fernet make_url probe cs
          → (next : List DatabaseConnection) → Change fernet make_url probe user cs next
          → (In c cs → In c next) × (In c next → In c cs)
      kept w next (added d own fresh free p) = (
        In-append_left (d ∷ []),
        λ i. elim (In-last cs d c i) [
          | inl k ↦ k
          | inr q ↦ absurd (other (ap (λ (z : DatabaseConnection). z.tenant_id) q ∙ own))
        ],
      )
      kept w next (changed old d i same_id same_tenant own names p) = (
        λ j. In-save_connection_of cs d c j (λ e. other (
            ap (λ (z : DatabaseConnection). z.tenant_id) (w.one_id c old j i (e ∙ sym same_id))
            ∙ same_tenant
            ∙ own)),
        λ j. elim (In-save_connection cs d c j) [
          | inl q ↦ absurd (other (ap (λ (z : DatabaseConnection). z.tenant_id) q ∙ own))
          | inr (k, n) ↦ k
        ],
      )
      kept w next (deleted old i own) = (
        λ j.
            unfold delete_connection in
            In-filter_by_of (λ (x : DatabaseConnection). not (x.id == old.id)) c cs j
              (ap not (
                if_neg (nat_eq.dec c.id old.id)
                  (λ e.
                    other
                      (ap (λ (z : DatabaseConnection). z.tenant_id) (w.one_id c old j i e) ∙ own))
                  true false)),
        λ j. In-deleted cs old.id c j,
      )
      kept w next unchanged = (λ i. i, λ i. i)

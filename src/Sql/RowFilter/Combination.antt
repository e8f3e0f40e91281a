-- ===== src/Sql/RowFilter/Combination.antt =====
-- What a combination of conditions keeps. `keeps` is the test of one row by the source database:
-- a row is kept where a condition is true, and dropped where it is false or unknown.
use multi_tenant_data_chat_p.Shared.{
  ◌≡◌, refl, ap, ◌∙◌, ◌⊎◌, inl, inr, Bool, true, false, not, ◌&&◌, ◌||◌, any, List, [], ◌∷◌, ◌++◌,
  ◌==◌, ==_iff, contains, ok, ok_inj, >>=-eq-ok, raise_if-then, if◌then◌else◌, arith,
}
use multi_tenant_data_chat_p.Shared.Text.{Text, text, text_eq}
use multi_tenant_data_chat_p.Values.{Value, str}
use multi_tenant_data_chat_p.Sql.Sqlglot.{Sqlglot}
use multi_tenant_data_chat_p.Sql.RowFilter.Rules.{
  is_among, is_text, combine_from, combine_expressions,
}

-- Every condition keeps the row.
abbrev pub keeps_all {ℓ} : {A : Type ℓ} → (A → Bool) → List A → Bool
keeps_all keeps [] = true
keeps_all keeps (c ∷ cs) = keeps c && keeps_all keeps cs

pub keeps_all-append {ℓ} :
    {A : Type ℓ} (keeps : A → Bool) (xs ys : List A)
    → keeps_all keeps (xs ++ ys) ≡ (keeps_all keeps xs && keeps_all keeps ys)
keeps_all-append keeps [] ys = refl
keeps_all-append keeps (x ∷ xs) ys = ground (arith, keeps_all-append keeps xs ys)

module _ {Statement Node Condition : Type 0} (g : Sqlglot Statement Node Condition)
    (keeps : Condition → Bool) where
  -- `exp.and_` and `exp.or_` build SQL's AND and OR.
  pub record IsTruth : Type 0 where
    pub keeps-and : (a b : Condition) → keeps (g.and_ a b) ≡ (keeps a && keeps b)
    pub keeps-or : (a b : Condition) → keeps (g.or_ a b) ≡ (keeps a || keeps b)

  module _ (truth : IsTruth) where
    keeps-combine_from :
        (conjoin : Bool) (c : Condition) (es : List Condition)
        → keeps (combine_from g conjoin c es)
          ≡ (if conjoin then keeps c && keeps_all keeps es else keeps c || any keeps es)
    unfolding combine_from
    keeps-combine_from true c [] = ground arith
    keeps-combine_from false c [] = ground arith
    keeps-combine_from true c (e ∷ es) =
        ground (arith, keeps-combine_from true (g.and_ c e) es, truth.keeps-and c e)
    keeps-combine_from false c (e ∷ es) =
        ground (arith, keeps-combine_from false (g.or_ c e) es, truth.keeps-or c e)

    is_among-eq-true :
        (texts : List Text) (v : Value)
        → is_among texts v ≡ ok true
        → (t : Text) × (v ≡ str t) × (contains texts t ≡ true)
    unfolding is_among
    is_among-eq-true texts (str t) h = (t, refl, ok_inj h)
    is_among-eq-true texts v h = absurd (ground arith)

    is_text-eq : (s t : Text) (v : Value) → v ≡ str t → is_text s v ≡ (t == s)
    unfolding is_text
    is_text-eq s t v e = rw e refl

    -- A combination that is built was asked for `all` or `any`; under `all` it keeps the rows
    -- that every condition keeps, under `any` those that some condition keeps.
    pub combine_expressions-keeps :
        (es : List Condition) (match : Value) (c : Condition)
        → combine_expressions g es match ≡ ok c
        → ((match ≡ str (text "all")) × (keeps c ≡ keeps_all keeps es))
          ⊎ ((match ≡ str (text "any")) × (keeps c ≡ any keeps es))
    unfolding combine_expressions
    combine_expressions-keeps [] match c h = cc
    combine_expressions-keeps (e ∷ es) match c h =
        let (b, among, h₁) = >>=-eq-ok (is_among (text "all" ∷ text "any" ∷ []) match) _ h in
        let (b_true, e₁) = raise_if-then (not b) _ _ h₁ in
        let (t, is_t, listed) = is_among-eq-true _ match (among ∙ ap ok (ground arith)) in
        rw (← ok_inj e₁) (by_text t is_t listed)
      where
        by_text :
            (t : Text)
            → match ≡ str t
            → contains (text "all" ∷ text "any" ∷ []) t ≡ true
            → ((match ≡ str (text "all"))
                × (keeps (combine_from g (is_text (text "all") match) e es)
                    ≡ keeps_all keeps (e ∷ es)))
              ⊎ ((match ≡ str (text "any"))
                  × (keeps (combine_from g (is_text (text "all") match) e es) ≡ any keeps (e ∷ es)))
        by_text t is_t listed = elim (text_eq.dec t (text "all")) [
          | yes a ↦ inl (
            is_t ∙ ap str a,
            rw (is_text-eq (text "all") t match is_t ∙ (==_iff _ _).1 a)
                (keeps-combine_from true e es),
          )
          | no n ↦ inr (
            is_t ∙ ap str (ground arith),
            rw
                (let other : (t == text "all") ≡ false = ground arith in
                  is_text-eq (text "all") t match is_t ∙ other)
                (keeps-combine_from false e es),
          )
        ]

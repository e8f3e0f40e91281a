-- ===== src/Shared/Dict.antt =====
-- Python's `dict`, as the list of its entries in insertion order.
use mathlib.Core.Path.{◌≡◌, refl, sym, ap, ap₂, ◌∙◌}
use mathlib.Core.Logic.{◌≢◌, ◌⊎◌, inl, inr, if_pos, if_neg}
use mathlib.Core.Bool.{Bool, true, false}
use mathlib.Core.Option.{Option, none, some}
use mathlib.Core.List.{List, [], ◌∷◌, ◌++◌, append-nil, append_assoc}
use native.Mathlib.Omega.{arith}
use multi_tenant_data_chat_p.Shared.Basics.{Eq, ◌==◌, ==_iff, Bool-cases, if◌then◌else◌, or_default}
use multi_tenant_data_chat_p.Shared.Lists.{In, here, there, filter_by}

abbrev pub Dict {ℓ κ} : Type ℓ → Type κ → Type (ℓ ⊔ κ)
Dict K V = List (K × V)

-- `d.values()`
unfoldable pub values {ℓ κ} : {K : Type ℓ} {V : Type κ} → Dict K V → List V
values [] = []
values ((k, v) ∷ d) = v ∷ values d

module _ {ℓ κ} {K : Type ℓ} {V : Type κ} ⦃e : Eq K⦄ where
  -- `d.get(k)`
  unfoldable pub get : Dict K V → K → Option V
  get [] k = none
  get ((j, v) ∷ d) k = if k == j then some v else get d k

  -- `d[k] = v`: a key that is there keeps its place.
  unfoldable pub put : Dict K V → K → V → Dict K V
  put [] k v = (k, v) ∷ []
  put ((j, w) ∷ d) k v = if k == j then (j, v) ∷ d else (j, w) ∷ put d k v

  -- `d.get(k, default)`
  abbrev pub get_or : Dict K V → K → V → V
  get_or d k v = or_default (get d k) v

  pub get-put :
      (d : Dict K V) (k : K) (v : V) (j : K)
      → get (put d k v) j ≡ (if j == k then some v else get d j)
  unfolding get put
  get-put [] k v j = refl
  get-put ((i, w) ∷ d) k v j = ground (arith, get-put d k v j, ==_iff j k, ==_iff k i, ==_iff j i)

  pub get-put_self : (d : Dict K V) (k : K) (v : V) → get (put d k v) k ≡ some v
  get-put_self d k v = ground (arith, get-put d k v k)

  -- After a write a key finds what was written, or what it found before.
  pub get-put_either :
      (d : Dict K V) (k : K) (v : V) (j : K) {w : V}
      → get (put d k v) j ≡ some w
      → (w ≡ v) ⊎ (get d j ≡ some w)
  get-put_either d k v j h = ground (arith, get-put d k v j)

  -- The same, with the key.
  pub get-put_cases :
      (d : Dict K V) (k : K) (v : V) (j : K) {w : V}
      → get (put d k v) j ≡ some w
      → ((j ≡ k) × (w ≡ v)) ⊎ (get d j ≡ some w)
  get-put_cases d k v j h = elim (e.dec j k) [
    | yes p ↦ inl (p, ground (arith, get-put d k v j, ==_iff j k))
    | no n ↦ inr (ground (arith, get-put d k v j, ==_iff j k))
  ]

  -- What a key finds is an entry of the dict.
  pub In-of_get : (d : Dict K V) (k : K) {v : V} → get d k ≡ some v → In (k, v) d
  unfolding get
  In-of_get [] k h = cc
  In-of_get ((j, w) ∷ d) k {v} h = elim (e.dec k j) [
    | yes p ↦ here (ground arith)
    | no n ↦ there (In-of_get d k (ground arith))
  ]

  pub In-values_of_get : (d : Dict K V) (k : K) {v : V} → get d k ≡ some v → In v (values d)
  unfolding get values
  In-values_of_get [] k h = cc
  In-values_of_get ((j, w) ∷ d) k {v} h = elim (e.dec k j) [
    | yes p ↦ here (ground arith)
    | no n ↦ there (In-values_of_get d k (ground arith))
  ]

  -- The key of an entry finds something.
  pub get-of_In : (d : Dict K V) (k : K) {v : V} → In (k, v) d → (w : V) × (get d k ≡ some w)
  unfolding get
  get-of_In [] k i = elim i [ ]
  get-of_In ((j, w) ∷ d) k i = elim (e.dec k j) [
    | yes p ↦ (w, ground arith)
    | no n ↦ let (u, h) = get-of_In d k (later n i) in (u, ground arith)
  ]
    where
      later : {v : V} → k ≢ j → In (k, v) ((j, w) ∷ d) → In (k, v) d
      later n (here p) = absurd (n (ap (λ (x : K × V). x.0) p))
      later n (there i) = i

  -- The entries after a write are the new one and old ones.
  pub In-put : (d : Dict K V) (k : K) (v : V) (x : K × V) → In x (put d k v) → (x ≡ (k, v)) ⊎ In x d
  unfolding put
  In-put [] k v x (here p) = inl p
  In-put [] k v x (there i) = elim i [ ]
  In-put ((j, w) ∷ d) k v x i = elim (e.dec k j) [
    | yes p ↦ found p (rw (if_pos _ p) at i)
    | no n ↦ passed (In-put d k v x) (rw (if_neg _ n) at i)
  ]
    where
      found : k ≡ j → In x ((j, v) ∷ d) → (x ≡ (k, v)) ⊎ In x ((j, w) ∷ d)
      found p (here q) = inl (q ∙ ap (λ y. (y, v)) (sym p))
      found p (there h) = inr (there h)

      passed :
          (In x (put d k v) → (x ≡ (k, v)) ⊎ In x d)
          → In x ((j, w) ∷ put d k v)
          → (x ≡ (k, v)) ⊎ In x ((j, w) ∷ d)
      passed ih (here q) = inr (here q)
      passed ih (there h) = elim (ih h) [ inl new ↦ inl new | inr old ↦ inr (there old) ]

  pub get_or-put :
      (d : Dict K V) (k : K) (v : V) (j : K) (w : V)
      → get_or (put d k v) j w ≡ (if j == k then v else get_or d j w)
  get_or-put d k v j w = ground (arith, get-put d k v j)

  pub get-put_ne : (d : Dict K V) (k : K) (v : V) (j : K) → j ≢ k → get (put d k v) j ≡ get d j
  get-put_ne d k v j n = ground (arith, get-put d k v j)

  -- A selection of entries keeps what a key finds, if that is selected.
  pub get-filter_by :
      (p : K × V → Bool) (d : Dict K V) (k : K) (v : V)
      → get d k ≡ some v
      → p (k, v) ≡ true
      → get (filter_by p d) k ≡ some v
  unfolding get
  get-filter_by p [] k v h s = cc
  get-filter_by p ((j, w) ∷ d) k v h s = elim (e.dec k j) [
    | yes q ↦
        let same : w ≡ v = ground arith in
        let kept : p (j, w) ≡ true = ap₂ (λ x y. p (x, y)) (sym q) same ∙ s in
        rw kept (ground arith)
    | no n ↦ elim (Bool-cases (p (j, w))) [
      | inl t ↦ rw t (ground (arith, get-filter_by p d k v (ground arith) s))
      | inr f ↦ rw f (get-filter_by p d k v (ground arith) s)
    ]
  ]

module _ {ℓ κ} {K : Type ℓ} {V : Type κ} ⦃e : Eq K⦄ where
  -- `d.setdefault(k, []).append(x)`
  unfoldable pub append_at : Dict K (List V) → K → V → Dict K (List V)
  append_at d k x = put d k (get_or d k [] ++ (x ∷ []))

  pub get_or-append_at :
      (d : Dict K (List V)) (k : K) (x : V) (j : K)
      → get_or (append_at d k x) j [] ≡ get_or d j [] ++ (if j == k then x ∷ [] else [])
  unfolding append_at
  get_or-append_at d k x j = ground (
    arith,
    get_or-put d k (get_or d k [] ++ (x ∷ [])) j [],
    ==_iff j k,
    append-nil (get_or d j []),
  )

  -- `for x in xs: d.setdefault(key(x), []).append(x)`
  unfoldable pub group_by : (V → K) → List V → Dict K (List V) → Dict K (List V)
  unfolding append_at
  group_by key [] d = d
  group_by key (x ∷ xs) d = group_by key xs (append_at d (key x) x)

  pub get_or-group_by :
      (key : V → K) (xs : List V) (d : Dict K (List V)) (k : K)
      → get_or (group_by key xs d) k [] ≡ get_or d k [] ++ filter_by (λ x. k == key x) xs
  unfolding group_by
  get_or-group_by key [] d k = sym (append-nil (get_or d k []))
  get_or-group_by key (x ∷ xs) d k =
      get_or-group_by key xs (append_at d (key x) x) k
      ∙ ap (λ l. l ++ filter_by (λ x. k == key x) xs) (get_or-append_at d (key x) x k)
      ∙ append_assoc (get_or d k []) (if k == key x then x ∷ [] else [])
          (filter_by (λ x. k == key x) xs)
      ∙ ap (λ l. get_or d k [] ++ l) (joined (k == key x))
    where
      joined :
          (b : Bool)
          → (if b then x ∷ [] else []) ++ filter_by (λ x. k == key x) xs
            ≡ (if b then x ∷ filter_by (λ x. k == key x) xs else filter_by (λ x. k == key x) xs)
      joined true = refl
      joined false = refl

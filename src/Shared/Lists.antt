-- ===== src/Shared/Lists.antt =====
-- Lists measured by native numbers, predicates on all or on some of their items, and loops.
use Prim.Native.Nat.{ℕ, zero, suc, ◌+◌, ◌-◌, min}
use mathlib.Core.Path.{◌≡◌, refl, sym, ap, subst, ◌∙◌}
use mathlib.Core.Logic.{◌⊎◌, inl, inr}
use mathlib.Core.Bool.{Bool, true, false, ◌||◌}
use mathlib.Core.List.{List, [], ◌∷◌, ◌++◌, map}
use native.Mathlib.Omega.{arith}
use multi_tenant_data_chat_p.Shared.Basics.{
  Eq, ◌==◌, ==_iff, Result, ok, ok_inj, ◌>>=◌, >>=-eq-ok, Bool-cases, if◌then◌else◌,
}

module _ {ℓ} {A : Type ℓ} where
  abbrev pub length : List A → ℕ
  length [] = 0
  length (x ∷ xs) = suc (length xs)

  abbrev pub take : ℕ → List A → List A
  take zero xs = []
  take (suc n) [] = []
  take (suc n) (x ∷ xs) = x ∷ take n xs

  abbrev pub drop : ℕ → List A → List A
  drop zero xs = xs
  drop (suc n) [] = []
  drop (suc n) (x ∷ xs) = drop n xs

  abbrev pub replicate : ℕ → A → List A
  replicate zero a = []
  replicate (suc n) a = a ∷ replicate n a

  abbrev pub is_empty : List A → Bool
  is_empty [] = true
  is_empty (x ∷ xs) = false

  abbrev pub any : (A → Bool) → List A → Bool
  any p [] = false
  any p (x ∷ xs) = p x || any p xs

  abbrev pub filter_by : (A → Bool) → List A → List A
  filter_by p [] = []
  filter_by p (x ∷ xs) = let rest = filter_by p xs in if p x then x ∷ rest else rest

  pub length-append : (xs ys : List A) → length (xs ++ ys) ≡ length xs + length ys
  length-append [] ys = omega arith
  length-append (x ∷ xs) ys = omega (arith, length-append xs ys)

module _ {ℓ} {A : Type ℓ} where
  pub length-take : (n : ℕ) (xs : List A) → length (take n xs) ≡ min n (length xs)
  length-take zero xs = omega arith
  length-take (suc n) [] = omega arith
  length-take (suc n) (x ∷ xs) = omega (arith, length-take n xs)

  pub length-drop : (n : ℕ) (xs : List A) → length (drop n xs) ≡ length xs - n
  length-drop zero xs = omega arith
  length-drop (suc n) [] = omega arith
  length-drop (suc n) (x ∷ xs) = omega (arith, length-drop n xs)

  pub length-replicate : (n : ℕ) (a : A) → length (replicate n a) ≡ n
  length-replicate zero a = refl
  length-replicate (suc n) a = ap suc (length-replicate n a)

-- Every item satisfies `P`.
module _ {ℓ κ} {A : Type ℓ} (P : A → Type κ) where
  abbrev pub All : List A → Type κ
  All [] = Unit
  All (x ∷ xs) = P x × All xs

-- Where an item stands in a list.
pub data In {ℓ} {A : Type ℓ} (a : A) : List A → Type ℓ where
  here : {x : A} {xs : List A} → a ≡ x → In a (x ∷ xs)
  there : {x : A} {xs : List A} → In a xs → In a (x ∷ xs)

module _ {ℓ} {A : Type ℓ} where
  pub In-append_left : {a : A} {xs : List A} (ys : List A) → In a xs → In a (xs ++ ys)
  In-append_left ys (here e) = here e
  In-append_left ys (there i) = there (In-append_left ys i)

  pub In-append_right : {a : A} (xs : List A) {ys : List A} → In a ys → In a (xs ++ ys)
  In-append_right [] i = i
  In-append_right (x ∷ xs) i = there (In-append_right xs i)

  pub In-append : {a : A} (xs ys : List A) → In a (xs ++ ys) → In a xs ⊎ In a ys
  In-append [] ys i = inr i
  In-append (x ∷ xs) ys (here e) = inl (here e)
  In-append (x ∷ xs) ys (there i) = elim (In-append xs ys i) [
    | inl l ↦ inl (there l)
    | inr r ↦ inr r
  ]

module _ {ℓ} {A : Type ℓ} ⦃e : Eq A⦄ where
  -- `a in xs`
  abbrev pub contains : List A → A → Bool
  contains [] a = false
  contains (x ∷ xs) a = a == x || contains xs a

  -- `if a not in xs: xs.append(a)`
  abbrev pub append_new : A → List A → List A
  append_new a xs = if contains xs a then xs else xs ++ (a ∷ [])

module _ {ℓ} {A : Type ℓ} ⦃e : Eq A⦄ where
  pub contains-append :
      (xs ys : List A) (a : A) → contains (xs ++ ys) a ≡ (contains xs a || contains ys a)
  contains-append [] ys a = refl
  contains-append (x ∷ xs) ys a = ground (arith, contains-append xs ys a)

  pub contains-append_new :
      (b : A) (xs : List A) (a : A) → contains (append_new b xs) a ≡ (a == b || contains xs a)
  contains-append_new b xs a = ground (arith, contains-append xs (b ∷ []) a, ==_iff a b)

-- A loop whose body may raise: `for x in xs: s = body(x, s)`.
module _ {ℓ κ η} {E : Type ℓ} {A : Type κ} {S : Type η} where
  unfoldable pub for_each : List A → S → (A → S → Result E S) → Result E S
  for_each [] s body = ok s
  for_each (x ∷ xs) s body = body x s >>= λ s'. for_each xs s' body

-- A relation between the items and the state that each round establishes and no round breaks
-- holds of every item when the loop ends; so does an invariant of the state.
module _ {ℓ κ η μ ν} {E : Type ℓ} {A : Type κ} {S : Type η} (Inv : S → Type μ) (P : A → S → Type ν)
    (body : A → S → Result E S) (step : (x : A) (s t : S) → body x s ≡ ok t → Inv s → Inv t × P x t)
    (keep : (x y : A) (s t : S) → body x s ≡ ok t → P y s → P y t) where
  for_each-keep : (xs : List A) (s t : S) (y : A) → for_each xs s body ≡ ok t → P y s → P y t
  unfolding for_each
  for_each-keep [] s t y h p = subst (P y) (ok_inj h) p
  for_each-keep (x ∷ xs) s t y h p =
      let (s', first, rest) = >>=-eq-ok (body x s) _ h in
      for_each-keep xs s' t y rest (keep x y s s' first p)

  pub for_each_sound :
      (xs : List A) (s t : S)
      → for_each xs s body ≡ ok t
      → Inv s
      → Inv t × ((x : A) → In x xs → P x t)
  unfolding for_each
  for_each_sound [] s t h i = (subst Inv (ok_inj h) i, λ x n. elim n [ ])
  for_each_sound (x ∷ xs) s t h i =
      let (s', first, rest) = >>=-eq-ok (body x s) _ h in
      let (i', p) = step x s s' first i in
      let (j, later) = for_each_sound xs s' t rest i' in (j, λ y n. visited y s' t rest p later n)
    where
      visited :
          (y : A) (s' t : S)
          → for_each xs s' body ≡ ok t
          → P x s'
          → ((z : A) → In z xs → P z t)
          → In y (x ∷ xs)
          → P y t
      visited y s' t rest p later (here e) =
          for_each-keep xs s' t y rest (subst (λ z. P z s') (sym e) p)
      visited y s' t rest p later (there n) = later y n

module _ {ℓ} {A : Type ℓ} ⦃e : Eq A⦄ where
  pub In-of_contains : (xs : List A) (a : A) → contains xs a ≡ true → In a xs
  In-of_contains [] a h = absurd (cc)
  In-of_contains (x ∷ xs) a h = elim (e.dec a x) [
    | yes p ↦ here p
    | no n ↦ there (In-of_contains xs a (ground (arith, ==_iff a x)))
  ]

-- An invariant that every round for an item of the list keeps.
pub for_each_members {ℓ κ η μ} :
    {E : Type ℓ} {A : Type κ} {S : Type η} (Inv : S → Type μ) (body : A → S → Result E S)
    (xs : List A)
    → ((x : A) (s t : S) → In x xs → body x s ≡ ok t → Inv s → Inv t)
    → (s t : S) → for_each xs s body ≡ ok t
    → Inv s
    → Inv t
unfolding for_each
for_each_members Inv body [] keep s t h i = subst Inv (ok_inj h) i
for_each_members Inv body (x ∷ xs) keep s t h i =
    let (s', first, rest) = >>=-eq-ok (body x s) _ h in
    for_each_members Inv body xs (λ y u v n. keep y u v (there n)) s' t rest
      (keep x s s' (here refl) first i)

module _ {ℓ} {A : Type ℓ} where
  pub any-true : (p : A → Bool) (xs : List A) → any p xs ≡ true → (a : A) × In a xs × (p a ≡ true)
  any-true p [] h = absurd (cc)
  any-true p (x ∷ xs) h = elim (Bool-cases (p x)) [
    | inl yes_here ↦ (x, here refl, yes_here)
    | inr not_here ↦ let (a, i, q) = any-true p xs (rw not_here at h) in (a, there i, q)
  ]

  pub In-filter_by :
      (p : A → Bool) (a : A) (xs : List A) → In a (filter_by p xs) → In a xs × (p a ≡ true)
  In-filter_by p a [] i = elim i [ ]
  In-filter_by p a (x ∷ xs) i = elim (Bool-cases (p x)) [
    | inl t ↦ first t (In-filter_by p a xs) (rw t at i)
    | inr f ↦ let (j, q) = In-filter_by p a xs (rw f at i) in (there j, q)
  ]
    where
      first :
          p x ≡ true
          → (In a (filter_by p xs) → In a xs × (p a ≡ true))
          → In a (x ∷ filter_by p xs)
          → In a (x ∷ xs) × (p a ≡ true)
      first t ih (here e) = (here e, ap p e ∙ t)
      first t ih (there j) = let (k, q) = ih j in (there k, q)

module _ {ℓ κ} {A : Type ℓ} {B : Type κ} where
  -- `[y for x in xs for y in f(x)]`
  unfoldable pub flat_map : (A → List B) → List A → List B
  flat_map f [] = []
  flat_map f (x ∷ xs) = f x ++ flat_map f xs

  pub In-flat_map :
      (f : A → List B) (b : B) (xs : List A) → In b (flat_map f xs) → (a : A) × In a xs × In b (f a)
  unfolding flat_map
  In-flat_map f b [] i = elim i [ ]
  In-flat_map f b (x ∷ xs) i = elim (In-append (f x) (flat_map f xs) i) [
    | inl j ↦ (x, here refl, j)
    | inr j ↦ let (a, k, l) = In-flat_map f b xs j in (a, there k, l)
  ]

module _ {ℓ} {A : Type ℓ} where
  pub In-filter_by_of :
      (p : A → Bool) (a : A) (xs : List A) → In a xs → p a ≡ true → In a (filter_by p xs)
  In-filter_by_of p a [] i h = elim i [ ]
  In-filter_by_of p a (x ∷ xs) (here e) h = rw (← e) (rw h (here refl))
  In-filter_by_of p a (x ∷ xs) (there i) h = elim (Bool-cases (p x)) [
    | inl t ↦ rw t (there (In-filter_by_of p a xs i h))
    | inr f ↦ rw f (In-filter_by_of p a xs i h)
  ]

module _ {ℓ κ} {A : Type ℓ} {B : Type κ} (f : A → B) where
  pub length-map : (xs : List A) → length (map f xs) ≡ length xs
  length-map [] = refl
  length-map (x ∷ xs) = ap suc (length-map xs)

  pub In-map : (xs : List A) (b : B) → In b (map f xs) → (a : A) × In a xs × (b ≡ f a)
  In-map [] b i = elim i [ ]
  In-map (x ∷ xs) b (here e) = (x, here refl, e)
  In-map (x ∷ xs) b (there i) = let (a, j, e) = In-map xs b i in (a, there j, e)

  pub In-map_of : (xs : List A) (a : A) → In a xs → In (f a) (map f xs)
  In-map_of [] a i = elim i [ ]
  In-map_of (x ∷ xs) a (here e) = here (ap f e)
  In-map_of (x ∷ xs) a (there i) = there (In-map_of xs a i)

module _ {ℓ κ} {A : Type ℓ} {B : Type κ} (f : A → List B) where
  pub In-flat_map_of : (xs : List A) (a : A) (b : B) → In a xs → In b (f a) → In b (flat_map f xs)
  unfolding flat_map
  In-flat_map_of [] a b i j = elim i [ ]
  In-flat_map_of (x ∷ xs) a b (here e) j =
      In-append_left (flat_map f xs) (subst (λ y. In b (f y)) e j)
  In-flat_map_of (x ∷ xs) a b (there i) j = In-append_right (f x) (In-flat_map_of xs a b i j)

pub In-contains {ℓ} : {A : Type ℓ} ⦃e : Eq A⦄ (a : A) (xs : List A) → In a xs → contains xs a ≡ true
In-contains a [] i = elim i [ ]
In-contains a (x ∷ xs) (here p) = ground (arith, ==_iff a x)
In-contains a (x ∷ xs) (there i) = ground (arith, In-contains a xs i)

-- ===== src/Execution/Masks/Hiding.antt =====
-- What a masked value shows of the value: its length and the ends that the mask leaves open.
use mathlib.Core.Path.{ap₂}
use multi_tenant_data_chat_p.Shared.{
  ℕ, ◌-◌, ◌<◌, max, ◌≡◌, refl, sym, ap, ◌∙◌, Bool, true, false, [], ◌∷◌, ◌++◌, length,
  length-append, length-take, length-drop, length-replicate, take, drop, contains, contains-append,
  leb, Bool-cases, inl, inr, nat_eq, ==_self, if_pos, if_neg, ◌≢◌, if◌then◌else◌, arith,
}
use multi_tenant_data_chat_p.Shared.Text.{Text}
use multi_tenant_data_chat_p.Execution.Masks.{
  stars, partial_text, split_at, masked_local_part, email_text,
}

length-stars : (n : ℕ) → length (stars n) ≡ n
unfolding stars
length-stars n = length-replicate n b'*'

length-partial_text : (s : Text) → length (partial_text s) ≡ length s
unfolding partial_text
length-partial_text s = elim (Bool-cases (leb (length s) 4)) [
  | inl t ↦ rw t (length-stars (length s))
  | inr f ↦
      let n = length s in
      rw (f, length-append, length-append, length-take, length-drop, length-stars) (ground arith)
]

-- `mask_partial` keeps the length of a text. Two texts of one length have the same mask when they
-- have at most four characters, or when the first two and the last two agree: what stands between
-- is hidden.
pub partial_text-hides :
    (s t : Text)
    → length s ≡ length t
    → (4 < length s → (take 2 s ≡ take 2 t) × (drop (length s - 2) s ≡ drop (length t - 2) t))
    → (length (partial_text s) ≡ length s) × (partial_text s ≡ partial_text t)
unfolding partial_text
partial_text-hides s t e ends =
    (length-partial_text s, same (leb (length s) 4) (leb (length t) 4) (ap (λ n. leb n 4) e) refl)
  where
    same :
        (b c : Bool)
        → b ≡ c
        → leb (length s) 4 ≡ b
        → (if b
            then stars (length s)
            else take 2 s ++ stars (length s - 4) ++ drop (length s - 2) s)
          ≡ (if c
              then stars (length t)
              else take 2 t ++ stars (length t - 4) ++ drop (length t - 2) t)
    same true true p q = ap stars e
    same false false p q =
        let (front, back) = ends (ground arith) in
        ap₂ ◌++◌ (ap₂ ◌++◌ front (ap (λ n. stars (n - 4)) e)) back
    same true false p q = cc
    same false true p q = cc

split_at-append :
    (local_part domain : Text)
    → contains local_part b'@' ≡ false
    → split_at (local_part ++ (b'@' ∷ domain)) ≡ (local_part, domain)
unfolding split_at
split_at-append [] domain h = refl
split_at-append (c ∷ s) domain h = elim (nat_eq.dec c b'@') [
  | yes p ↦ absurd (absent p)
  | no n ↦ rw (if_neg _ n, split_at-append s domain (later n)) refl
]
  where
    absent : c ≡ b'@' → ⊥
    absent p = cc (rw (if_pos (nat_eq.dec b'@' c) (sym p)) at h)

    later : c ≢ b'@' → contains s b'@' ≡ false
    later n = rw (if_neg (nat_eq.dec b'@' c) (λ q. n (sym q))) at h

contains-middle : (s t : Text) (c : ℕ) → contains (s ++ (c ∷ t)) c ≡ true
contains-middle s t c = rw (contains-append s (c ∷ t) c, ==_self c) (ground arith)

masked_local_part-cons :
    (c : ℕ) (s : Text) → masked_local_part (c ∷ s) ≡ c ∷ stars (max (length s) 3)
unfolding masked_local_part stars
masked_local_part-cons c [] = refl
masked_local_part-cons c (d ∷ s) = refl

email_text-address :
    (c : ℕ) (s domain : Text)
    → contains (c ∷ s) b'@' ≡ false
    → email_text ((c ∷ s) ++ (b'@' ∷ domain)) ≡ (c ∷ stars (max (length s) 3)) ++ (b'@' ∷ domain)
unfolding email_text
email_text-address c s domain h =
    rw (contains-middle (c ∷ s) domain b'@', split_at-append (c ∷ s) domain h)
      (ap (λ l. l ++ (b'@' ∷ domain)) (masked_local_part-cons c s))

-- `mask_email` shows of an address with a local part the domain, the first character, and how
-- many characters follow it if these are more than three: two local parts that agree in that have
-- the same mask.
pub email_text-hides :
    (c : ℕ) (s t domain : Text)
    → contains (c ∷ s) b'@' ≡ false
    → contains (c ∷ t) b'@' ≡ false
    → max (length s) 3 ≡ max (length t) 3
    → email_text ((c ∷ s) ++ (b'@' ∷ domain)) ≡ email_text ((c ∷ t) ++ (b'@' ∷ domain))
email_text-hides c s t domain hs ht e =
    email_text-address c s domain hs
    ∙ ap (λ n. c ∷ stars n ++ (b'@' ∷ domain)) e
    ∙ sym (email_text-address c t domain ht)

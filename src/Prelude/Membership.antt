-- ===== src/Prelude/Membership.antt =====
-- Where the elements of a filtered, sorted, cut or mapped list come from.
use Prim.Native.Nat.{ℕ, zero, suc}
use mathlib.Core.Path.{◌≡◌, refl}
use mathlib.Core.Logic.{◌⊎◌, inl, inr}
use mathlib.Core.Bool.{Bool, true, false}
use mathlib.Core.List.{List, [], ◌∷◌, map}
use native.Mathlib.Omega.{arith}
use package.clock_ha_orchestrator.Prelude.Tests.{leb, Bool-cases}
use package.clock_ha_orchestrator.Prelude.Lists.{All, Any, any, take, select, insert_by, sorted_by}

module _ {A : Type 0} where
  pub Any-mono : (P Q : A → Type 0) (xs : List A) → ((x : A) → P x → Q x) → Any P xs → Any Q xs
  Any-mono P Q [] f h = h
  Any-mono P Q (x ∷ xs) f (inl h) = inl (f x h)
  Any-mono P Q (x ∷ xs) f (inr h) = inr (Any-mono P Q xs f h)

  pub Any-take : (P : A → Type 0) (n : ℕ) (xs : List A) → Any P (take n xs) → Any P xs
  Any-take P zero xs h = absurd h
  Any-take P (suc n) [] h = h
  Any-take P (suc n) (x ∷ xs) (inl h) = inl h
  Any-take P (suc n) (x ∷ xs) (inr h) = inr (Any-take P n xs h)

  Any-insert_by :
      (P : A → Type 0) (key : A → ℕ) (x : A) (xs : List A)
      → Any P (insert_by key x xs)
      → P x ⊎ Any P xs
  Any-insert_by P key x [] h = h
  Any-insert_by P key x (y ∷ ys) h = elim (Bool-cases (leb (key x) (key y))) [
    | inl t ↦ rw t at h
    | inr f ↦ later (Any-insert_by P key x ys) (rw f at h)
  ]
    where
      later :
          (Any P (insert_by key x ys) → P x ⊎ Any P ys)
          → P y ⊎ Any P (insert_by key x ys)
          → P x ⊎ (P y ⊎ Any P ys)
      later ih (inl p) = inr (inl p)
      later ih (inr r) = elim (ih r) [ inl p ↦ inl p | inr q ↦ inr (inr q) ]

  pub Any-sorted_by :
      (P : A → Type 0) (key : A → ℕ) (xs : List A) → Any P (sorted_by key xs) → Any P xs
  Any-sorted_by P key [] h = h
  Any-sorted_by P key (x ∷ xs) h = elim (Any-insert_by P key x (sorted_by key xs) h) [
    | inl p ↦ inl p
    | inr r ↦ inr (Any-sorted_by P key xs r)
  ]

  pub Any-filter :
      (P : A → Type 0) (p : A → Bool) (xs : List A)
      → Any P (select p xs)
      → Any (λ x. P x × (p x ≡ true)) xs
  Any-filter P p [] h = h
  Any-filter P p (x ∷ xs) h = elim (Bool-cases (p x)) [
    | inl t ↦ keep t (Any-filter P p xs) (rw t at h)
    | inr f ↦ inr (Any-filter P p xs (rw f at h))
  ]
    where
      keep :
          p x ≡ true
          → (Any P (select p xs) → Any (λ x. P x × (p x ≡ true)) xs)
          → P x ⊎ Any P (select p xs)
          → (P x × (p x ≡ true)) ⊎ Any (λ x. P x × (p x ≡ true)) xs
      keep t ih (inl q) = inl (q, t)
      keep t ih (inr r) = inr (ih r)

  pub Any-map :
      {B : Type 0} (P : B → Type 0) (f : A → B) (xs : List A)
      → Any P (map f xs)
      → Any (λ x. P (f x)) xs
  Any-map P f [] h = h
  Any-map P f (x ∷ xs) (inl h) = inl h
  Any-map P f (x ∷ xs) (inr h) = inr (Any-map P f xs h)

  -- What no element satisfies fails on all of them.
  pub All-of_not_Any :
      (p : A → Bool) (xs : List A) → (Any (λ x. p x ≡ true) xs → ⊥) → All (λ x. p x ≡ false) xs
  All-of_not_Any p [] f = tt
  All-of_not_Any p (x ∷ xs) f = elim (Bool-cases (p x)) [
    | inl t ↦ absurd (f (inl t))
    | inr e ↦ (e, All-of_not_Any p xs (λ h. f (inr h)))
  ]

  pub Any-of_any : (p : A → Bool) (xs : List A) → any p xs ≡ true → Any (λ x. p x ≡ true) xs
  Any-of_any p [] h = cc
  Any-of_any p (x ∷ xs) h = elim (Bool-cases (p x)) [
    | inl t ↦ inl t
    | inr e ↦ inr (Any-of_any p xs (rw e at h))
  ]

  pub any_of_Any : (p : A → Bool) (xs : List A) → Any (λ x. p x ≡ true) xs → any p xs ≡ true
  any_of_Any p [] h = absurd h
  any_of_Any p (x ∷ xs) (inl h) = rw h refl
  any_of_Any p (x ∷ xs) (inr h) = ground (arith, any_of_Any p xs h)

  pub not_Any : (P : A → Type 0) (xs : List A) → ((x : A) → P x → ⊥) → Any P xs → ⊥
  not_Any P [] f h = h
  not_Any P (x ∷ xs) f (inl h) = f x h
  not_Any P (x ∷ xs) f (inr h) = not_Any P xs f h

  pub any-map :
      {B : Type 0} (p : B → Bool) (f : A → B) (xs : List A)
      → any p (map f xs) ≡ any (λ x. p (f x)) xs
  any-map p f [] = refl
  any-map p f (x ∷ xs) = rw (any-map p f xs)

  pub All-map :
      {B : Type 0} (P : B → Type 0) (f : A → B) (xs : List A)
      → All (λ x. P (f x)) xs
      → All P (map f xs)
  All-map P f [] h = tt
  All-map P f (x ∷ xs) h = (h.0, All-map P f xs h.1)

  pub All-mono : (P Q : A → Type 0) (xs : List A) → ((x : A) → P x → Q x) → All P xs → All Q xs
  All-mono P Q [] f h = tt
  All-mono P Q (x ∷ xs) f h = (f x h.0, All-mono P Q xs f h.1)

  pub All-of_All : (P : A → Type 0) (xs : List A) → ((x : A) → P x) → All P xs
  All-of_All P [] f = tt
  All-of_All P (x ∷ xs) f = (f x, All-of_All P xs f)

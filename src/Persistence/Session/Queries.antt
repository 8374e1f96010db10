-- ===== src/Persistence/Session/Queries.antt =====
-- What the queries of a session find, after rows are added and updated.
use clock_ha_orchestrator.Prelude.{
  ℕ, ◌<◌, ◌≡◌, refl, ap, Bool, true, Option, none, some, List, [], ◌∷◌, lt→ltb, select, All,
  Present, if-holds, arith, Bool-cases, inl, inr,
}
use clock_ha_orchestrator.Prelude.Results.{ok, err}
use clock_ha_orchestrator.Persistence.Session.{
  Database, not_stored, stored, find, update_where, newest_of, newest,
}

pub newest-Present :
    {A : Type 0} (P : A → Type 0) (time id : A → ℕ) (xs : List A)
    → All P xs
    → Present P (newest time id xs)
newest-Present P time id [] h = tt
newest-Present P time id (x ∷ xs) h = ground (arith, newest-Present P time id xs)

pub select-All :
    {A : Type 0} (P : A → Type 0) (p : A → Bool) (xs : List A) → All P xs → All P (select p xs)
select-All P p [] h = tt
select-All P p (x ∷ xs) h = ground (arith, select-All P p xs)

newest_of_head :
    {A : Type 0} (time id : A → ℕ) (x : A) (o : Option A)
    → Present (λ y. time y < time x) o
    → newest_of time id x o ≡ x
newest_of_head time id x none h = refl
newest_of_head time id x (some y) h = rw (lt→ltb (time y) (time x) h) refl

-- A row of the query that is later than every row behind it is the newest.
pub newest_head :
    {A : Type 0} (time id : A → ℕ) (p : A → Bool) (x : A) (xs : List A)
    → p x ≡ true
    → All (λ y. time y < time x) xs
    → newest time id (select p (x ∷ xs)) ≡ some x
newest_head time id p x xs e h = rw e (
    ap some (
      newest_of_head time id x (newest time id (select p xs)) (
        newest-Present (λ y. time y < time x) time id (select p xs)
          (select-All (λ y. time y < time x) p xs h))))

-- The row that a query finds before an update, changed, is the one that it finds after it.
pub find-update :
    {A : Type 0} (p : A → Bool) (change : A → A) (xs : List A) (x : A)
    → ((y : A) → p y ≡ true → p (change y) ≡ true)
    → find p xs ≡ some x
    → find p (update_where p change xs) ≡ some (change x)
find-update p change [] x k h = ground arith
find-update p change (y ∷ ys) x k h = ground (arith, k y, find-update p change ys x k)

-- What a transaction returns is what its statements gave.
pub stored-ok :
    {A : Type 0} (takes : Database → Database → Bool) (db : Database) (m r : Database × A)
    → stored takes db m ≡ ok r
    → m ≡ r
stored-ok takes db m r h = elim (Bool-cases (takes db m.0)) [
  | inl y ↦ (let k : ok m ≡ ok r = rw y at h in ground arith)
  | inr n ↦ absurd (let k : err not_stored ≡ ok r = rw n at h in ground arith)
]

pub find-holds : {A : Type 0} (p : A → Bool) (xs : List A) → Present (λ x. p x ≡ true) (find p xs)
find-holds p [] = tt
find-holds p (x ∷ xs) = ground (arith, find-holds p xs)

-- An update whose rows all satisfy a predicate again leaves a table that does.
pub update-All :
    {A : Type 0} (P : A → Type 0) (p : A → Bool) (change : A → A) (xs : List A)
    → ((x : A) → P x → P (change x))
    → All P xs
    → All P (update_where p change xs)
update-All P p change [] k h = tt
update-All P p change (x ∷ xs) k h =
    (if-holds P (p x) (change x) x (λ _. k x h.0) (λ _. h.0), update-All P p change xs k h.1)

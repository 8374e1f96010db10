-- ===== src/Outbox/Store/Recovery.antt =====
-- Recovery: rows whose worker died, and dead letters.
use clock_ha_orchestrator.Prelude.{
  ℕ, ◌≡◌, refl, inl, inr, Bool, true, false, List, [], ◌∷◌, map, ◌==◌, if◌then◌else◌, any, All,
  length, select, arith, Bool-cases, not, ◌&&◌,
}
use clock_ha_orchestrator.Prelude.Membership.{All-map}
use clock_ha_orchestrator.Outbox.Store.{
  OutboxEvent, is_dead, is_claimable, update_rows, is_stale, release_row, release_stale_publishing,
  requeue_row, retry_dead_letters,
}

-- The primary key: no two rows have one id.
abbrev pub HasKeys : List OutboxEvent → Type 0
HasKeys [] = Unit
HasKeys (r ∷ rs) = All (λ s. (r.id == s.id) ≡ false) rs × HasKeys rs

any_chosen :
    (p : OutboxEvent → Bool) (x : OutboxEvent) (xs : List OutboxEvent)
    → All (λ s. (x.id == s.id) ≡ false) xs
    → any (λ c. c.id == x.id) (select p xs) ≡ false
any_chosen p x [] h = refl
any_chosen p x (y ∷ ys) h = ground (arith, any_chosen p x ys h.1)

chosen_exactly :
    (p : OutboxEvent → Bool) (rows : List OutboxEvent)
    → HasKeys rows
    → All (λ r. any (λ c. c.id == r.id) (select p rows) ≡ p r) rows
chosen_exactly p [] h = tt
chosen_exactly p (x ∷ xs) h = (here, rest xs h.0 (chosen_exactly p xs h.1))
  where
    here : any (λ c. c.id == x.id) (select p (x ∷ xs)) ≡ p x
    here = ground (arith, any_chosen p x xs h.0)

    one :
        (r : OutboxEvent)
        → (x.id == r.id) ≡ false
        → any (λ c. c.id == r.id) (select p xs) ≡ p r
        → any (λ c. c.id == r.id) (select p (x ∷ xs)) ≡ p r
    one r d e = ground arith

    rest :
        (ys : List OutboxEvent)
        → All (λ s. (x.id == s.id) ≡ false) ys
        → All (λ r. any (λ c. c.id == r.id) (select p xs) ≡ p r) ys
        → All (λ r. any (λ c. c.id == r.id) (select p (x ∷ xs)) ≡ p r) ys
    rest [] d e = tt
    rest (y ∷ ys) d e = (one y d.0 e.0, rest ys d.1 e.1)

map-test :
    (change : OutboxEvent → OutboxEvent) (s t : OutboxEvent → Bool) (rows : List OutboxEvent)
    → All (λ r. s r ≡ t r) rows
    → map (λ r. if s r then change r else r) rows ≡ map (λ r. if t r then change r else r) rows
map-test change s t [] h = refl
map-test change s t (r ∷ rs) h = rw (h.0, map-test change s t rs h.1)

-- Writing to the rows of a query changes exactly the rows that the query's test selects.
pub update_rows-select :
    (change : OutboxEvent → OutboxEvent) (p : OutboxEvent → Bool) (rows : List OutboxEvent)
    → HasKeys rows
    → update_rows change (select p rows) rows ≡ map (λ r. if p r then change r else r) rows
update_rows-select change p rows h = map-test change _ p rows (chosen_exactly p rows h)

-- In a table of distinct ids a release turns exactly the stale rows into due ones: no row is stale
-- afterwards, and if one was, some row can be claimed.
pub release_stale_publishing_lem :
    (now older_than : ℕ) (rows : List OutboxEvent)
    → HasKeys rows
    → let after = (release_stale_publishing now older_than rows).1 in
      (after ≡ map (λ r. if is_stale now older_than r then release_row now r else r) rows)
      × All (λ r. is_stale now older_than r ≡ false) after
      × ((any (is_stale now older_than) rows && not (any (is_claimable now) after)) ≡ false)
unfolding release_stale_publishing
release_stale_publishing_lem now older_than rows h =
    rw (update_rows-select (release_row now) (is_stale now older_than) rows h)
      (refl, All-map _ _ rows (fresh rows), ground (arith, due rows))
  where
    released : OutboxEvent → OutboxEvent
    released r = if is_stale now older_than r then release_row now r else r

    settled : (r : OutboxEvent) → is_stale now older_than (released r) ≡ false
    settled r = elim (Bool-cases (is_stale now older_than r)) [
      | inl t ↦ rw t (unfold is_stale in refl)
      | inr f ↦ rw f f
    ]

    fresh : (l : List OutboxEvent) → All (λ r. is_stale now older_than (released r) ≡ false) l
    fresh [] = tt
    fresh (r ∷ rs) = (settled r, fresh rs)

    claimable_now :
        (r : OutboxEvent) → is_stale now older_than r ≡ true → is_claimable now (released r) ≡ true
    claimable_now r t = rw t (unfold is_claimable in ground arith)

    due :
        (l : List OutboxEvent)
        → any (is_stale now older_than) l ≡ true
        → any (is_claimable now) (map released l) ≡ true
    due [] e = e
    due (r ∷ rs) e = elim (Bool-cases (is_stale now older_than r)) [
      | inl t ↦ rw (claimable_now r t) refl
      | inr f ↦ ground (arith, due rs)
    ]

-- In a table of distinct ids a manual retry turns exactly the dead letters into due rows, so that
-- none is left, and returns how many there were.
pub retry_dead_letters_lem :
    (now : ℕ) (rows : List OutboxEvent)
    → HasKeys rows
    → let (n, after) = retry_dead_letters now rows in
      (after ≡ map (λ r. if is_dead r.status then requeue_row now r else r) rows)
      × (any (λ r. is_dead r.status) after ≡ false)
      × (n ≡ length (select (λ r. is_dead r.status) rows))
unfolding retry_dead_letters
retry_dead_letters_lem now rows h =
    rw (update_rows-select (requeue_row now) (λ r. is_dead r.status) rows h)
      (refl, none_dead rows, refl)
  where
    none_dead :
        (l : List OutboxEvent)
        → any
            (λ r. is_dead r.status)
            (map (λ r. if is_dead r.status then requeue_row now r else r) l)
          ≡ false
    none_dead [] = refl
    none_dead (r ∷ rs) = ground (arith, none_dead rs)

-- ===== src/Outbox/Store/Claims.antt =====
-- Claiming: who gets which messages.
use clock_ha_orchestrator.Prelude.{
  ℕ, zero, suc, ◌≡◌, ◌≢◌, ◌≤◌, refl, ap, inl, inr, Bool, true, false, not, ◌&&◌, List, [], ◌∷◌, map,
  String, ◌==◌, if◌then◌else◌, any, All, Any, length, select, insert_by, sorted_by, take, arith,
  Bool-cases,
}
use clock_ha_orchestrator.Prelude.Membership.{
  Any-mono, Any-take, Any-sorted_by, Any-filter, Any-map, All-of_not_Any, not_Any, any-map,
}
use clock_ha_orchestrator.Outbox.Store.{
  OutboxEvent, is_waiting, is_due, is_claimable, claimable, claim_row, pending_message,
  claim_pending,
}

-- A claimed message is a row of the table that was claimable.
pub Any-claimable :
    (P : OutboxEvent → Type 0) (locked : ℕ → Bool) (now limit : ℕ) (rows : List OutboxEvent)
    → Any P (claimable locked now limit rows)
    → Any (λ r. P r × ((is_claimable now r && not (locked r.id)) ≡ true)) rows
Any-claimable P locked now limit rows h =
    Any-filter P _ rows
      (Any-sorted_by P (λ r. r.id) _ (Any-sorted_by P (λ r. r.created_at) _ (Any-take P limit _ h)))

-- A row that an update chose has the changed status, so it is not claimable.
claimed_row :
    (chosen : List OutboxEvent) (locked : ℕ → Bool) (w : String) (now now' : ℕ) (r : OutboxEvent)
    → let r' = if any (λ c. c.id == r.id) chosen then claim_row w now r else r in
      any (λ c. c.id == r'.id) chosen ≡ true
      → (is_claimable now' r' && not (locked r'.id)) ≡ true
      → ⊥
unfolding is_claimable
claimed_row chosen locked w now now' r h c = elim (Bool-cases (any (λ c. c.id == r.id) chosen)) [
  | inl t ↦ let k : (false && not (locked r.id)) ≡ true = rw t at c in cc
  | inr f ↦ let k : any (λ c. c.id == r.id) chosen ≡ true = rw f at h in cc
]

-- Two claims in a row, by any workers and at any times, never hand out the same message.
pub claim_pending_exclusive :
    (locked locked' : ℕ → Bool) (w w' : String) (now now' limit limit' : ℕ)
    (rows : List OutboxEvent)
    → let (earlier, after) = claim_pending locked w now limit rows in
      let (later, _) = claim_pending locked' w' now' limit' after in
      All (λ m. any (λ k. k.id == m.id) earlier ≡ false) later
unfolding claim_pending
claim_pending_exclusive locked locked' w w' now now' limit limit' rows = All-of_not_Any _ _ λ h.
    not_Any _ rows
      (λ r p.
        claimed_row chosen locked' w now now' r (rw (any-map _ pending_message chosen) at p.0) p.1)
      (Any-map _ _ rows (Any-claimable _ locked' now' limit' _ (Any-map _ pending_message _ h)))
  where
    chosen : List OutboxEvent
    chosen = claimable locked now limit rows

length-take-le : {A : Type 0} (n : ℕ) (xs : List A) → length (take n xs) ≤ n
length-take-le zero xs = omega arith
length-take-le (suc n) [] = omega arith
length-take-le (suc n) (x ∷ xs) = omega (arith, length-take-le n xs)

length-map : {A B : Type 0} (f : A → B) (xs : List A) → length (map f xs) ≡ length xs
length-map f [] = refl
length-map f (x ∷ xs) = ap suc (length-map f xs)

-- The elements that satisfy the predicate, one by one.
All-from_Any :
    {A : Type 0} (Q : A → Type 0) (xs : List A) → ((x : A) → Any (λ y. y ≡ x) xs → Q x) → All Q xs
All-from_Any Q [] f = tt
All-from_Any Q (x ∷ xs) f = (f x (inl refl), All-from_Any Q xs (λ y h. f y (inr h)))

-- A claim hands out at most `limit` messages, and each is the message of a row of the table that
-- waits, is due and is not locked by another transaction.
pub claim_pending_sound :
    (locked : ℕ → Bool) (w : String) (now limit : ℕ) (rows : List OutboxEvent)
    → let messages = (claim_pending locked w now limit rows).0 in
      (length messages ≤ limit)
      × All
          (λ m.
            Any
              (λ r.
                (pending_message r ≡ m)
                × (is_waiting r.status ≡ true)
                × (is_due now r.next_attempt_at ≡ true)
                × (locked r.id ≡ false))
              rows)
          messages
unfolding claim_pending is_claimable
claim_pending_sound locked w now limit rows = (
  rw (length-map pending_message (claimable locked now limit rows)) (length-take-le limit _),
  All-from_Any _ _ λ m h.
      Any-mono _ _ rows (λ r p. (p.0, ground arith, ground arith, ground arith))
        (Any-claimable (λ r. pending_message r ≡ m) locked now limit rows
          (Any-map _ pending_message _ h)),
)

take-nil : {A : Type 0} (n : ℕ) (xs : List A) → take (suc n) xs ≡ [] → xs ≡ []
take-nil n [] h = refl
take-nil n (x ∷ xs) h = cc

insert_by-ne : {A : Type 0} (key : A → ℕ) (x : A) (xs : List A) → insert_by key x xs ≡ [] → ⊥
insert_by-ne key x [] h = cc
insert_by-ne key x (y ∷ ys) h = ground arith

sorted_by-nil : {A : Type 0} (key : A → ℕ) (xs : List A) → sorted_by key xs ≡ [] → xs ≡ []
sorted_by-nil key [] h = refl
sorted_by-nil key (x ∷ xs) h = absurd (insert_by-ne key x (sorted_by key xs) h)

select-nil-none : {A : Type 0} (p : A → Bool) (xs : List A) → select p xs ≡ [] → any p xs ≡ false
select-nil-none p [] h = refl
select-nil-none p (x ∷ xs) h = ground (arith, select-nil-none p xs)

-- While some row waits, is due and is free, a claim with room for a message hands one out.
pub claim_pending_progress :
    (locked : ℕ → Bool) (w : String) (now n : ℕ) (rows : List OutboxEvent)
    → any (λ r. is_claimable now r && not (locked r.id)) rows ≡ true
    → (claim_pending locked w now (suc n) rows).0 ≢ []
unfolding claim_pending
claim_pending_progress locked w now n rows h e =
    let none_left =
      select-nil-none (λ r. is_claimable now r && not (locked r.id)) rows
        (sorted_by-nil (λ r. r.id) _
          (sorted_by-nil (λ r. r.created_at) _ (take-nil n _ (map-nil _ e)))) in
    cc
  where
    map-nil : (l : List OutboxEvent) → map pending_message l ≡ [] → l ≡ []
    map-nil [] e = refl
    map-nil (x ∷ xs) e = cc

-- ===== src/System/Clear.antt =====
-- app/system/state.py: what the status says of the rows.
use clock_ha_orchestrator.Prelude.{
  ℕ, ◌≡◌, refl, ◌↔◌, Bool, true, false, not, ◌&&◌, Option, none, some, List, [], ◌∷◌, String,
  str_eq, any, All, is_some, select, ◌==◌, arith,
}
use clock_ha_orchestrator.Domain.Time.{ZoneInfo}
use clock_ha_orchestrator.Outbox.Store.{OutboxEvent, Status}
use clock_ha_orchestrator.Persistence.Rows.{PropertyRow, RoomStateRow}
use clock_ha_orchestrator.Persistence.Session.{Database, find, newest}
use clock_ha_orchestrator.System.{
  SystemStatus, nonzero, system_status, in_conflict, count_where, latest_room_states, waits, dead,
  count_outbox, last_success, state_or_empty, build_system_state,
}

nonzero-count_where {ℓ} :
    {A : Type ℓ} (p : A → Bool) (xs : List A) → nonzero (count_where p xs) ≡ any p xs
nonzero-count_where p [] = refl
nonzero-count_where p (x ∷ xs) = ground (arith, nonzero-count_where p xs)

is_some-newest {ℓ} :
    {A : Type ℓ} (time id : A → ℕ) (p : A → Bool) (xs : List A)
    → is_some (newest time id (select p xs)) ≡ any p xs
is_some-newest time id p [] = refl
is_some-newest time id p (x ∷ xs) = ground (arith, is_some-newest time id p xs)

-- The status of the counts' truth values.
system_status-online :
    (connected required seen : Bool) (conflicts attentions pending dead : ℕ)
    → (system_status connected required seen conflicts attentions pending dead
        ≡ SystemStatus.online)
      ↔ ((nonzero dead ≡ false)
          × ((nonzero pending ≡ false)
              × ((nonzero conflicts ≡ false)
                  × ((nonzero attentions ≡ false)
                      × ((required && not connected ≡ false) × (seen ≡ true))))))
unfolding system_status
system_status-online c r s x a w d = (λ h. ground arith, λ h. ground arith)

published_iff : (s : Status) → ((waits s ≡ false) × (dead s ≡ false)) ↔ (s ≡ Status.published)
published_iff Status.pending = (λ h. ground arith, λ h. ground arith)
published_iff Status.retrying = (λ h. ground arith, λ h. ground arith)
published_iff Status.publishing = (λ h. ground arith, λ h. ground arith)
published_iff Status.published = (λ _. refl, λ _. (refl, refl))
published_iff Status.dead_letter = (λ h. ground arith, λ h. ground arith)

drained_iff :
    (es : List OutboxEvent)
    → ((any (λ e. waits e.status) es ≡ false) × (any (λ e. dead e.status) es ≡ false))
      ↔ All (λ e. e.status ≡ Status.published) es
drained_iff [] = (λ _. tt, λ _. (refl, refl))
drained_iff (e ∷ es) = (
  λ h. ground (arith, drained_iff es, published_iff e.status),
  λ h. ground (arith, drained_iff es, published_iff e.status),
)

-- The room's latest state asks for nobody.
abbrev pub Calm : RoomStateRow → Type 0
Calm r = (in_conflict r ≡ false) × (r.needs_attention ≡ false)

attention_iff :
    (rs : List RoomStateRow)
    → ((any in_conflict rs ≡ false) × (any (λ r. r.needs_attention) rs ≡ false)) ↔ All Calm rs
attention_iff [] = (λ _. tt, λ _. (refl, refl))
attention_iff (r ∷ rs) =
    (λ h. ground (arith, attention_iff rs), λ h. ground (arith, attention_iff rs))

-- Every event is published, no room's latest state asks for anybody, a synchronisation of the
-- property succeeded, and the broker is there where it is required.
abbrev pub IsClear : Database → Option PropertyRow → (connected required : Bool) → Type 0
IsClear db none connected required = ⊥
IsClear db (some p) connected required =
    All (λ e. e.status ≡ Status.published) db.outbox_events
    × (All Calm (latest_room_states db)
        × ((any (λ r. r.property_id == p.id && r.success) db.sync_runs ≡ true)
            × (required && not connected ≡ false)))

-- What the tests of the status say of the rows.
tests_iff :
    (db : Database) (p : PropertyRow) (c r : Bool)
    → ((nonzero (count_outbox db dead) ≡ false)
        × ((nonzero (count_outbox db waits) ≡ false)
            × ((nonzero (count_where in_conflict (latest_room_states db)) ≡ false)
                × ((nonzero (count_where (λ q. q.needs_attention) (latest_room_states db)) ≡ false)
                    × ((r && not c ≡ false) × (is_some (last_success p.id db) ≡ true))))))
      ↔ IsClear db (some p) c r
tests_iff db p c r =
    let latest = latest_room_states db in
    rw
      (
        nonzero-count_where (λ e. dead e.status) db.outbox_events,
        nonzero-count_where (λ e. waits e.status) db.outbox_events,
        nonzero-count_where in_conflict latest,
        nonzero-count_where (λ q. q.needs_attention) latest,
        is_some-newest (λ q. q.finished_at) (λ q. q.id) (λ q. q.property_id == p.id && q.success)
            db.sync_runs,
      )
      (
        λ h. (
          (drained_iff db.outbox_events).0 (h.1.0, h.0),
          ((attention_iff latest).0 (h.1.1.0, h.1.1.1.0), (h.1.1.1.1.1, h.1.1.1.1.0)),
        ),
        λ k. (
          ((drained_iff db.outbox_events).1 k.0).1,
          (
            ((drained_iff db.outbox_events).1 k.0).0,
            (
              ((attention_iff latest).1 k.1.0).0,
              (((attention_iff latest).1 k.1.0).1, (k.1.1.1, k.1.1.0)),
            ),
          ),
        ),
      )

state_or_empty-online :
    (zone : ZoneInfo) (db : Database) (o : Option PropertyRow) (now : ℕ) (c r : Bool)
    → ((state_or_empty zone db o now c r).status ≡ SystemStatus.online) ↔ IsClear db o c r
state_or_empty-online zone db none now c r = (λ h. ground arith, λ h. ground arith)
state_or_empty-online zone db (some p) now c r =
    let online_iff =
      system_status-online c r (is_some (last_success p.id db))
        (count_where in_conflict (latest_room_states db))
        (count_where (λ q. q.needs_attention) (latest_room_states db)) (count_outbox db waits)
        (count_outbox db dead) in
    (λ h. (tests_iff db p c r).0 (online_iff.0 h), λ k. online_iff.1 ((tests_iff db p c r).1 k))

-- The status is `online` exactly when the property has its row, every event of the outbox is
-- published, the latest state of each room is neither a conflict nor asks for attention, some
-- synchronisation of the property succeeded, and the broker is connected or not required.
pub build_system_state-online :
    (zone : ZoneInfo) (db : Database) (key : String) (now : ℕ) (connected required : Bool)
    → ((build_system_state zone db key now connected required).status ≡ SystemStatus.online)
      ↔ IsClear db (find (λ p. str_eq p.key key) db.properties) connected required
unfolding build_system_state
build_system_state-online zone db key now c r =
    state_or_empty-online zone db (find (λ p. str_eq p.key key) db.properties) now c r

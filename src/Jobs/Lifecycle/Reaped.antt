-- ===== src/Jobs/Lifecycle/Reaped.antt =====
-- What the two statements of a tick of the reaper do with a row when nobody comes between them.
use arbeiterfarm.Base.{
  ℕ, ◌≡◌, refl, sym, ap, ap₂, ◌∙◌, inl, inr, Bool, true, false, ◌&&◌, none, some, [], ◌∷◌, map, ltb,
  leb, if◌then◌else◌, Bool-cases, if_of_true, if_of_false,
}
use arbeiterfarm.Jobs.ToolRuns.{
  is_running, ToolRunRow, Table, update, expired, reclaim_expired, exhausted_error, fail_exhausted,
  queued, failed,
}
use arbeiterfarm.Jobs.Lifecycle.{reap_expired, reap_exhausted}

-- A running run whose lease has run out is queued again while it has a claim left, and fails
-- otherwise, each unless its statement did; other rows stay.
abbrev pub reaped : Bool → Bool → ℕ → ℕ → ToolRunRow → ToolRunRow
reaped reclaimed given_up reclaim_at fail_at r =
    if reclaimed && (is_running r.status && expired reclaim_at r.lease_expires && ltb r.attempt 3)
    then record r { status = queued; lease_expires = none }
    else if given_up && (is_running r.status && expired fail_at r.lease_expires && leb 3 r.attempt)
    then record r {
      status = failed;
      error_json = some exhausted_error;
      completed_at = some fail_at;
    }
    else r

map_self : (table : Table) → table ≡ map (λ r. r) table
map_self [] = refl
map_self (r ∷ rest) = ap (λ t. r ∷ t) (map_self rest)

reap_expired-map :
    (done : Bool) (now : ℕ) (table : Table)
    → reap_expired done now table ≡ map (reaped done false now now) table
unfolding reap_expired reclaim_expired update
reap_expired-map false now table = map_self table
reap_expired-map true now [] = refl
reap_expired-map true now (r ∷ rest) =
    ap (λ t. reaped true false now now r ∷ t) (reap_expired-map true now rest)

reap_exhausted-map :
    (done : Bool) (now : ℕ) (table : Table)
    → reap_exhausted done now table ≡ map (reaped false done now now) table
unfolding reap_exhausted fail_exhausted update
reap_exhausted-map false now table = map_self table
reap_exhausted-map true now [] = refl
reap_exhausted-map true now (r ∷ rest) =
    ap (λ t. reaped false true now now r ∷ t) (reap_exhausted-map true now rest)

stays_queued :
    (given_up : Bool) (b : ℕ) (r : ToolRunRow)
    → reaped false given_up b b (record r { status = queued; lease_expires = none })
      ≡ record r { status = queued; lease_expires = none }
stays_queued true b r = refl
stays_queued false b r = refl

one_row :
    (reclaimed given_up : Bool) (a b : ℕ) (r : ToolRunRow)
    → reaped false given_up b b (reaped reclaimed false a a r) ≡ reaped reclaimed given_up a b r
one_row false given_up a b r = refl
one_row true given_up a b r =
    let requeued = record r { status = queued; lease_expires = none } in
    elim (Bool-cases (is_running r.status && expired a r.lease_expires && ltb r.attempt 3)) [
      | inl e ↦
          ap (reaped false given_up b b) (if_of_true _ requeued r e)
          ∙ stays_queued given_up b r
          ∙ sym (if_of_true _ requeued (reaped false given_up b b r) e)
      | inr e ↦
          ap (reaped false given_up b b) (if_of_false _ requeued r e)
          ∙ sym (if_of_false _ requeued (reaped false given_up b b r) e)
    ]

map_rows :
    (reclaimed given_up : Bool) (a b : ℕ) (table : Table)
    → map (reaped false given_up b b) (map (reaped reclaimed false a a) table)
      ≡ map (reaped reclaimed given_up a b) table
map_rows reclaimed given_up a b [] = refl
map_rows reclaimed given_up a b (r ∷ rest) =
    ap₂ (λ x xs. x ∷ xs) (one_row reclaimed given_up a b r) (map_rows reclaimed given_up a b rest)

pub reap-map :
    (reclaimed given_up : Bool) (a b : ℕ) (table : Table)
    → reap_exhausted given_up b (reap_expired reclaimed a table)
      ≡ map (reaped reclaimed given_up a b) table
reap-map reclaimed given_up a b table =
    ap (reap_exhausted given_up b) (reap_expired-map reclaimed a table)
    ∙ reap_exhausted-map given_up b (map (reaped reclaimed false a a) table)
    ∙ map_rows reclaimed given_up a b table

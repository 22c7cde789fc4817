-- ===== src/Store/Records/Retries.antt =====
-- `process` of backend/shared/telemetry/recorder.go with the database it writes to: how often a usage
-- record is counted.
use chainmesh.Base.{
  ℕ, zero, suc, ◌+◌, ◌≤◌, ◌≡◌, ◌≢◌, refl, sym, ap, ◌∙◌, Bool, true, false, not, arith, eqb, inl,
  inr, Bool-cases, if◌then◌else◌,
}
use mathlib.Core.Bool.{false≢true, ◌&&◌}
use chainmesh.Model.{Usage}
use chainmesh.Redis.{Delivery, delivered, refused, lost}
use chainmesh.Telemetry.{Fate, Outcome, wrote, gave_up, abandoned, attempts, process, max_attempts}
use chainmesh.Store.{Database}
use chainmesh.Store.Statements.{exec}
use chainmesh.Store.Tenants.{names_tenant}
use chainmesh.Store.Records.{same_key, upsert_usage, record_usage}
use chainmesh.Store.Records.Totals.{counted, takes_effect, record_usage-usage, one_counted}

-- The attempts of `process` at writing a usage record, from attempt i on with `left` of them left.
unfoldable pub write_attempts :
    (ℕ → Delivery) → (ℕ → Bool) → ℕ → ℕ → Usage → Database → Outcome × Database
write_attempts trips done zero i u db = (gave_up, db)
write_attempts trips done (suc left) i u db =
    let (ok, db') = record_usage (trips i) u db in
    let rest = write_attempts trips done left (suc i) u db' in
    if ok
    then (wrote, db')
    else if eqb left 0
    then (gave_up, db')
    else if done i
    then (abandoned, db')
    else rest

unfoldable pub process_usage : (ℕ → Delivery) → (ℕ → Bool) → Usage → Database → Outcome × Database
process_usage trips done u db = write_attempts trips done max_attempts 1 u db

-- An attempt succeeds if its reply arrives and the tenant exists.
abbrev pub succeeds : Delivery → Usage → Database → Bool
succeeds delivered u db = names_tenant u.tenant_id db
succeeds refused u db = false
succeeds lost u db = false

record_usage-succeeds :
    (trip : Delivery) (u : Usage) (db : Database) → (record_usage trip u db).0 ≡ succeeds trip u db
unfolding record_usage exec upsert_usage
record_usage-succeeds refused u db = refl
record_usage-succeeds lost u db = refl
record_usage-succeeds delivered u db = elim (Bool-cases (names_tenant u.tenant_id db)) [
  | inl e ↦ rw e refl
  | inr e ↦ rw e refl
]

succeeds_same :
    (trip : Delivery) (u : Usage) (a b : Database)
    → a.tenants ≡ b.tenants
    → succeeds trip u a ≡ succeeds trip u b
succeeds_same delivered u a b e = rw e refl
succeeds_same refused u a b e = refl
succeeds_same lost u a b e = refl

-- What the attempts meet, as the recorder's own model sees it.
abbrev pub fate_of : (ℕ → Delivery) → (ℕ → Bool) → Usage → Database → Fate
fate_of trips done u db = record { fails = λ i. not (succeeds (trips i) u db); done = done }

-- One round of the two loops.
abbrev round : Bool → Bool → Bool → Database → Outcome × Database → Outcome × Database
round ok last closed d rest =
    if ok
    then (wrote, d)
    else if last
    then (gave_up, d)
    else if closed
    then (abandoned, d)
    else rest

abbrev counted_round : Bool → Bool → Bool → Outcome → ℕ → Outcome × ℕ
counted_round fails last closed o n =
    if not fails
    then (wrote, 0)
    else if last
    then (gave_up, 1)
    else if closed
    then (abandoned, 1)
    else (o, suc n)

round_same :
    (ok s last closed : Bool) (d : Database) (rest : Outcome × Database) (o : Outcome) (n : ℕ)
    → ok ≡ s
    → rest.0 ≡ o
    → (round ok last closed d rest).0 ≡ (counted_round (not s) last closed o n).0
round_same true true last closed d rest o n h k = refl
round_same true false last closed d rest o n h k = absurd (false≢true (sym h))
round_same false true last closed d rest o n h k = absurd (false≢true h)
round_same false false true closed d rest o n h k = refl
round_same false false false true d rest o n h k = refl
round_same false false false false d rest o n h k = k

write_attempts-attempts :
    (trips : ℕ → Delivery) (done : ℕ → Bool) (left i : ℕ) (u : Usage) (db base : Database)
    → db.tenants ≡ base.tenants
    → (write_attempts trips done left i u db).0 ≡ (attempts (fate_of trips done u base) left i).0
unfolding write_attempts attempts
write_attempts-attempts trips done zero i u db base e = refl
write_attempts-attempts trips done (suc left) i u db base e =
    let ok = record_usage-succeeds (trips i) u db ∙ succeeds_same (trips i) u db base e in
    let kept = (record_usage-usage (trips i) u db).1 ∙ e in
    let ih =
      write_attempts-attempts trips done left (suc i) u (record_usage (trips i) u db).1 base kept in
    round_same _ _ (eqb left 0) (done i) _ _ _ _ ok ih

abbrev pub times : ℕ → ℕ → ℕ
times zero c = 0
times (suc n) c = c + times n c

-- What the end of `process` says of the number of times that the record was counted.
abbrev pub AtLeastOnce : Outcome → ℕ → Type 0
AtLeastOnce wrote n = 1 ≤ n
AtLeastOnce gave_up n = Unit
AtLeastOnce abandoned n = Unit

is_wrote : Outcome → Bool
is_wrote wrote = true
is_wrote gave_up = false
is_wrote abandoned = false

gave_up≢wrote : gave_up ≢ wrote
unfolding is_wrote
gave_up≢wrote e = false≢true (ap is_wrote e)

abandoned≢wrote : abandoned ≢ wrote
unfolding is_wrote
abandoned≢wrote e = false≢true (ap is_wrote e)

-- The record was counted n times, of at most `most`.
pub record Counts (k u : Usage) (db : Database) (most : ℕ) (p : Outcome × Database) : Type 0 where
  pub n : ℕ
  pub bound : n ≤ most
  pub written : AtLeastOnce p.0 n
  pub sum : counted k p.1.usage ≡ counted k db.usage + (if same_key k u then times n u.count else 0)

module _ (k u : Usage) where
  Counts-zero :
      (db : Database) (most : ℕ) (o : Outcome) → AtLeastOnce o 0 → Counts k u db most (o, db)
  Counts-zero db most o w = record { n = 0; bound = omega arith; written = w; sum = ground arith }

  -- What one attempt counts.
  attempt_counted :
      (trip : Delivery) (db : Database)
      → counted k (record_usage trip u db).1.usage
        ≡ counted k db.usage + (if takes_effect trip u db && same_key k u then u.count else 0)
  attempt_counted trip db =
      ap (counted k) (record_usage-usage trip u db).0 ∙ (one_counted k u trip db).0

  effect_of_success :
      (trip : Delivery) (db : Database) → succeeds trip u db ≡ true → takes_effect trip u db ≡ true
  effect_of_success delivered db h = h
  effect_of_success refused db h = absurd (ground arith)
  effect_of_success lost db h = absurd (ground arith)

  -- The attempt ends the loop.
  Counts-last :
      (trip : Delivery) (db : Database) (left : ℕ) (o : Outcome)
      → (o ≡ wrote → succeeds trip u db ≡ true)
      → Counts k u db (suc left) (o, (record_usage trip u db).1)
  Counts-last trip db left o h = elim (Bool-cases (takes_effect trip u db)) [
    | inl e ↦
        let c = attempt_counted trip db in
        record { n = 1; bound = omega arith; written = at_least o; sum = rw e at c ∙ ground arith }
    | inr e ↦
        let c = attempt_counted trip db in
        record {
          n = 0;
          bound = omega arith;
          written = not_written e o h;
          sum = rw e at c ∙ ground arith;
        }
  ]
    where
      at_least : (o : Outcome) → AtLeastOnce o 1
      at_least wrote = omega arith
      at_least gave_up = tt
      at_least abandoned = tt

      not_written :
          takes_effect trip u db ≡ false
          → (o : Outcome) → (o ≡ wrote → succeeds trip u db ≡ true)
          → AtLeastOnce o 0
      not_written e wrote h = absurd (false≢true (sym e ∙ effect_of_success trip db (h refl)))
      not_written e gave_up h = tt
      not_written e abandoned h = tt

  at_least_more : (n : ℕ) (o : Outcome) → AtLeastOnce o n → AtLeastOnce o (suc n)
  at_least_more n wrote w = omega (arith, w)
  at_least_more n gave_up w = tt
  at_least_more n abandoned w = tt

  -- The attempt is followed by others.
  Counts-more :
      (trip : Delivery) (db : Database) (left : ℕ) (p : Outcome × Database)
      → Counts k u (record_usage trip u db).1 left p
      → Counts k u db (suc left) p
  Counts-more trip db left p later = elim (Bool-cases (takes_effect trip u db)) [
    | inl e ↦
        let c = attempt_counted trip db in
        let bound = later.bound in
        record {
          n = suc later.n;
          bound = omega (arith, bound);
          written = at_least_more later.n p.0 later.written;
          sum = later.sum ∙ add_up (same_key k u) u.count _ _ _ (rw e at c);
        }
    | inr e ↦
        let c = attempt_counted trip db in
        let bound = later.bound in
        let sum = later.sum in
        let same : counted k (record_usage trip u db).1.usage ≡ counted k db.usage =
          rw e at c ∙ ground arith in
        record {
          n = later.n;
          bound = omega (arith, bound);
          written = later.written;
          sum = sum ∙ rw same refl;
        }
  ]
    where
      add_up :
          (b : Bool) (c x y t : ℕ)
          → y ≡ x + (if true && b then c else 0)
          → y + (if b then t else 0) ≡ x + (if b then c + t else 0)
      add_up true c x y t h = omega (arith, h)
      add_up false c x y t h = omega (arith, h)

  Counts-round :
      (trip : Delivery) (db : Database) (left : ℕ) (rest : Outcome × Database)
      (ok last closed : Bool)
      → (ok ≡ true → succeeds trip u db ≡ true)
      → Counts k u (record_usage trip u db).1 left rest
      → Counts k u db (suc left) (round ok last closed (record_usage trip u db).1 rest)
  Counts-round trip db left rest true last closed h later =
      Counts-last trip db left wrote (λ _. h refl)
  Counts-round trip db left rest false true closed h later =
      Counts-last trip db left gave_up (λ e. absurd (gave_up≢wrote e))
  Counts-round trip db left rest false false true h later =
      Counts-last trip db left abandoned (λ e. absurd (abandoned≢wrote e))
  Counts-round trip db left rest false false false h later = Counts-more trip db left rest later

  write_attempts-Counts :
      (trips : ℕ → Delivery) (done : ℕ → Bool) (left i : ℕ) (db : Database)
      → Counts k u db left (write_attempts trips done left i u db)
  unfolding write_attempts
  write_attempts-Counts trips done zero i db = Counts-zero db 0 gave_up tt
  write_attempts-Counts trips done (suc left) i db =
      let ok = record_usage-succeeds (trips i) u db in
      let later = write_attempts-Counts trips done left (suc i) (record_usage (trips i) u db).1 in
      Counts-round (trips i) db left _ _ (eqb left 0) (done i) (λ e. sym ok ∙ e) later

-- However the replies of its attempts fare, `process` counts a usage record at most three times, and at
-- least once if it ends in `wrote`: under every key the table's count has grown by that many times the
-- record's.
pub process_usage-Counts :
    (k u : Usage) (trips : ℕ → Delivery) (done : ℕ → Bool) (db : Database)
    → Counts k u db 3 (process_usage trips done u db)
unfolding process_usage
process_usage-Counts k u trips done db = write_attempts-Counts k u trips done 3 1 db

-- Against the database, `process` ends as the recorder's own model of it says, whose attempts fail if
-- and only if the database refuses the record, or its reply is lost.
pub process_usage-process :
    (u : Usage) (trips : ℕ → Delivery) (done : ℕ → Bool) (db : Database)
    → (process_usage trips done u db).0 ≡ (process (fate_of trips done u db)).0
unfolding process_usage process
process_usage-process u trips done db = write_attempts-attempts trips done 3 1 u db db refl

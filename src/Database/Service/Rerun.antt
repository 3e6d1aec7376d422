-- ===== src/Database/Service/Rerun.antt =====
-- Running migrations again: what the log remembers.
use platforma.Base.{
  ◌≡◌, ◌≢◌, refl, sym, ap, ◌∙◌, subst, true, List, [], ◌∷◌, ◌++◌, map, Option, none, some, arith,
  String, All, Option-cases, Bool-cases, inl, inr, eq_iff,
}
use platforma.Base.Text.{Text, text_eq_iff}
use platforma.Base.Errors.{Error, join}
use platforma.Database.Parser.{Migration}
use platforma.Database.Service.{
  Sql, MigrationLog, is_logged, contains_log, self_repository, self_migrations, logs_or_nil,
  join_failed, save_migration_log, save_from, save_migration_logs, apply_from, apply_migrations,
  migrate_self_from, migrate_self,
}
use platforma.Database.Service.Effects.{pending, Ups, apply_migrations-save_migration_logs}

join_failed-ne-none : (a b : Option Error) → a ≢ none → join_failed a b ≢ none
unfolding join
join_failed-ne-none none b h e = h refl
join_failed-ne-none (some a) none h e = cc
join_failed-ne-none (some a) (some b) h e = cc

contains_log-append :
    (repository : String) (id : Text) (logs more : List MigrationLog)
    → contains_log repository id logs ≡ true
    → contains_log repository id (logs ++ more) ≡ true
unfolding contains_log
contains_log-append repository id [] more h = cc
contains_log-append repository id (l ∷ logs) more h =
    ground (arith, contains_log-append repository id logs more)

contains_log-last :
    (l : MigrationLog) (logs : List MigrationLog)
    → contains_log l.repository l.id (logs ++ l ∷ []) ≡ true
unfolding contains_log
contains_log-last l [] = ground (arith, eq_iff l.repository l.repository, text_eq_iff l.id l.id)
contains_log-last l (k ∷ logs) = ground (arith, contains_log-last l logs)

pending_of_logged :
    (logs : List MigrationLog) (ms : List Migration)
    → All (λ m. is_logged logs m ≡ true) ms
    → pending logs ms ≡ []
unfolding pending
pending_of_logged logs [] h = refl
pending_of_logged logs (m ∷ ms) h = ground (arith, pending_of_logged logs ms h.1)

-- Each migration is logged already or pending.
logged_or_pending :
    (P : Migration → Type 0) (logs : List MigrationLog) (ms : List Migration)
    → ((m : Migration) → is_logged logs m ≡ true → P m)
    → All P (pending logs ms)
    → All P ms
unfolding pending
logged_or_pending P logs [] f h = tt
logged_or_pending P logs (m ∷ ms) f h = elim (Bool-cases (is_logged logs m)) [
  | inl e ↦ (f m e, logged_or_pending P logs ms f (rw (e, pending) at h))
  | inr e ↦ let h' = rw (e, pending) at h in (h'.0, logged_or_pending P logs ms f h'.1)
]

module _ (sql : Sql) where
  open sql use {World, select_logs, insert_log, now}

  -- What the code relies on of the table platforma_migrations: an INSERT that succeeds adds its row.
  pub record LogTable : Type 0 where
    pub rows : World → List MigrationLog
    pub inserted :
        (l : MigrationLog) (w : World)
        → (insert_log l w).0 ≡ none
        → rows (insert_log l w).1 ≡ rows w ++ l ∷ []

  -- The row that saveMigrationLog writes.
  abbrev row : Migration → World → MigrationLog
  row m w = record { repository = m.repository; id = m.id; timestamp = now w }

  save_from-ne-none :
      (ms : List Migration) (master : Option Error) (w : World)
      → master ≢ none
      → (save_from sql master ms w).0 ≢ none
  unfolding save_from
  save_from-ne-none [] master w h = h
  save_from-ne-none (m ∷ ms) master w h =
      save_from-ne-none ms (join_failed master (save_migration_log sql m.repository m.id w).0)
        (save_migration_log sql m.repository m.id w).1
        (join_failed-ne-none master (save_migration_log sql m.repository m.id w).0 h)

  save_from-saved :
      (ms : List Migration) (m : Migration) (w : World)
      → (insert_log (row m w) w).0 ≡ none
      → save_from sql none (m ∷ ms) w ≡ save_from sql none ms (insert_log (row m w) w).1
  unfolding save_from
  save_from-saved ms m w h = ground arith

  save_from-lost :
      (ms : List Migration) (m : Migration) (w : World) {message : String}
      → (insert_log (row m w) w).0 ≡ some message
      → (save_from sql none (m ∷ ms) w).0 ≢ none
  unfolding save_from
  save_from-lost ms m w h =
      save_from-ne-none ms (join_failed none (save_migration_log sql m.repository m.id w).0)
        (save_migration_log sql m.repository m.id w).1 (unfold join in λ e. ground (arith, h))

  apply_migrations_of_logged :
      (ms : List Migration) (logs : List MigrationLog) (w : World)
      → pending logs ms ≡ []
      → apply_migrations sql ms logs w ≡ (none, w)
  apply_migrations_of_logged ms logs w h =
      apply_migrations-save_migration_logs sql ms logs w w (rw h refl)
      ∙ (unfold save_migration_logs in rw h refl)

  module _ (t : LogTable) where
    open t use {rows, inserted}

    abbrev Logged : World → Migration → Type 0
    Logged w m = is_logged (rows w) m ≡ true

    save_from-Logged :
        (ms : List Migration) (w : World)
        → (save_from sql none ms w).0 ≡ none
        → All (Logged (save_from sql none ms w).1) ms
          × ((m : Migration) → Logged w m → Logged (save_from sql none ms w).1 m)
    save_from-Logged [] w h = (tt, unfold save_from in λ m l. l)
    save_from-Logged (m ∷ ms) w h = elim (Option-cases (insert_log (row m w) w).0) [
      | inr (message, lost) ↦ absurd (save_from-lost ms m w lost h)
      | inl saved ↦
          let step = save_from-saved ms m w saved in
          let w₁ = (insert_log (row m w) w).1 in
          let (all, keeps) = save_from-Logged ms w₁ (rw step at h) in
          let grown = inserted (row m w) w saved in
          let kept : (n : Migration) → Logged w n → Logged w₁ n =
            λ n l. rw grown (contains_log-append n.repository n.id (rows w) (row m w ∷ []) l) in
          let own : Logged w₁ m = rw grown (contains_log-last (row m w) (rows w)) in
          subst (λ end. All (Logged end) (m ∷ ms) × ((n : Migration) → Logged w n → Logged end n))
            (sym (ap (λ (p : Option Error × World). p.1) step))
            ((keeps m own, all), λ n l. keeps n (kept n l))
    ]

    rows-save_from :
        (ms : List Migration) (master : Option Error) (w : World)
        → ((l : MigrationLog) (v : World) → rows (insert_log l v).1 ≡ rows v)
        → rows (save_from sql master ms w).1 ≡ rows w
    unfolding save_from
    rows-save_from [] master w h = refl
    rows-save_from (m ∷ ms) master w h =
        rows-save_from ms (join_failed master (save_migration_log sql m.repository m.id w).0)
          (save_migration_log sql m.repository m.id w).1 h
        ∙ h (row m w) w

    -- On a server whose INSERT adds its row, after a run whose pending migrations all succeed and
    -- leave the log as it was, and whose log entries are all written, a second run over the same
    -- migrations executes nothing and changes nothing.
    pub apply_migrations_twice :
        (ms : List Migration) (w w' : World)
        → Ups sql (pending (rows w) ms) w w'
        → rows w' ≡ rows w
        → (save_migration_logs sql (pending (rows w) ms) w').0 ≡ none
        → let w'' = (apply_migrations sql ms (rows w) w).1 in
          apply_migrations sql ms (rows w'') w'' ≡ (none, w'')
    apply_migrations_twice ms w w' ups same saved =
        let first = apply_migrations-save_migration_logs sql ms (rows w) w w' ups in
        rw first (
          apply_migrations_of_logged ms (rows end) end (
            pending_of_logged (rows end) ms
              (logged_or_pending (Logged end) (rows w) ms (λ m l. run.1 m (rw same l)) run.0)))
      where
        end : World
        end = (save_migration_logs sql (pending (rows w) ms) w').1

        run :
            All (Logged end) (pending (rows w) ms) × ((m : Migration) → Logged w' m → Logged end m)
        run = unfold save_migration_logs in save_from-Logged (pending (rows w) ms) w' saved

    -- When no log entry can be written, a run whose pending migrations all succeed and leave the log
    -- as it was still reports success, and the next run takes the same migrations for pending.
    pub apply_migrations_unsaved :
        (ms : List Migration) (w w' : World)
        → Ups sql (pending (rows w) ms) w w'
        → rows w' ≡ rows w
        → ((l : MigrationLog) (v : World) → rows (insert_log l v).1 ≡ rows v)
        → let (e, w'') = apply_migrations sql ms (rows w) w in
          (e ≡ none) × (pending (rows w'') ms ≡ pending (rows w) ms)
    unfolding save_migration_logs
    apply_migrations_unsaved ms w w' ups same lost =
        rw (apply_migrations-save_migration_logs sql ms (rows w) w w' ups) (
          refl,
          ap (λ logs. pending logs ms) (rows-save_from (pending (rows w) ms) none w' lost ∙ same),
        )

-- A migration under the name that migrateSelf gives it.
unfoldable pub named : Migration → Migration
named m = record m { repository = self_repository }

module _ (sql : Sql) where
  open sql use {World, select_logs, execute}

  migrate_self_from-named :
      (logs : List MigrationLog) (applied ms : List Migration) (w : World)
      → migrate_self_from sql logs applied ms w ≡ apply_from sql logs applied (map named ms) w
  unfolding migrate_self_from apply_from named
  migrate_self_from-named logs applied [] w = refl
  migrate_self_from-named logs applied (m ∷ ms) w = ground (
    arith,
    migrate_self_from-named logs applied ms w,
    migrate_self_from-named logs (applied ++ named m ∷ []) ms (execute m.up w).1,
  )

  -- migrateSelf is applyMigrations over the repository's own migrations under the name
  -- platforma_migration, with the log that it could read, or none.
  pub migrate_self-apply :
      (w : World)
      → migrate_self sql w
        ≡ apply_migrations sql
            (map named self_migrations)
            (logs_or_nil (select_logs w).0)
            (select_logs w).1
  unfolding migrate_self apply_migrations
  migrate_self-apply w =
      migrate_self_from-named (logs_or_nil (select_logs w).0) [] self_migrations (select_logs w).1

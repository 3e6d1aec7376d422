-- ===== src/Database/Service/Atomic.antt =====
-- A failed run of applyMigrations over migrations whose Down undoes their Up.
use mathlib.Core.List.{reverse-append}
use platforma.Base.{
  ◌≡◌, refl, ap, ◌∙◌, List, [], ◌∷◌, ◌++◌, reverse, none, some, arith, String, All, Option-cases,
  inl, inr,
}
use platforma.Base.Errors.{Error}
use platforma.Database.Parser.{Migration}
use platforma.Database.Service.{
  Sql, MigrationLog, apply_migration, revert_migrations, apply_migrations,
}
use platforma.Database.Service.Effects.{
  pending, downs, apply_all, apply_migrations_all, downs-revert_from,
}

All-pending :
    (P : Migration → Type 0) (logs : List MigrationLog) (ms : List Migration)
    → All P ms
    → All P (pending logs ms)
unfolding pending
All-pending P logs [] h = tt
All-pending P logs (m ∷ ms) h = ground (arith, All-pending P logs ms h.1)

module _ (sql : Sql) where
  open sql use {World, execute}

  -- A failed Up query leaves no trace, and the Down query undoes one that succeeded.
  pub record IsReversible (m : Migration) : Type 0 where
    pub clean :
        (w : World) (message : String) → (execute m.up w).0 ≡ some message → (execute m.up w).1 ≡ w
    pub undone : (w : World) → (execute m.up w).0 ≡ none → (execute m.down (execute m.up w).1).1 ≡ w

  apply_all-applied :
      (applied ms : List Migration) (m : Migration) (w : World)
      → (execute m.up w).0 ≡ none
      → apply_all sql applied (m ∷ ms) w ≡ apply_all sql (applied ++ m ∷ []) ms (execute m.up w).1
  unfolding apply_all apply_migration
  apply_all-applied applied ms m w h = ground arith

  apply_all-failed :
      (applied ms : List Migration) (m : Migration) (w : World) {message : String}
      → (execute m.up w).0 ≡ some message
      → (apply_all sql applied (m ∷ ms) w).1 ≡ downs sql (reverse applied) (execute m.up w).1
  unfolding apply_all apply_migration revert_migrations
  apply_all-failed applied ms m w h =
      ground (arith, downs-revert_from sql (reverse applied) none (execute m.up w).1)

  downs-concat :
      (applied : List Migration) (m : Migration) (w : World)
      → (execute m.down (execute m.up w).1).1 ≡ w
      → downs sql (reverse (applied ++ m ∷ [])) (execute m.up w).1 ≡ downs sql (reverse applied) w
  unfolding downs
  downs-concat applied m w h =
      rw (reverse-append applied (m ∷ [])) (ap (downs sql (reverse applied)) h)

  apply_all_atomic :
      (ms applied : List Migration) (w w₀ : World) {e : Error}
      → All IsReversible ms
      → downs sql (reverse applied) w ≡ w₀
      → (apply_all sql applied ms w).0 ≡ some e
      → (apply_all sql applied ms w).1 ≡ w₀
  apply_all_atomic [] applied w w₀ h d x = absurd (unfold apply_all in cc x)
  apply_all_atomic (m ∷ ms) applied w w₀ h d x = elim (Option-cases (execute m.up w).0) [
    | inl done ↦
        let step = apply_all-applied applied ms m w done in
        rw step (
          apply_all_atomic ms (applied ++ m ∷ []) (execute m.up w).1 w₀ h.1
            (downs-concat applied m w (h.0.undone w done) ∙ d) (rw step at x))
    | inr (message, failed) ↦
        apply_all-failed applied ms m w failed
        ∙ ap (downs sql (reverse applied)) (h.0.clean w message failed)
        ∙ d
  ]

  -- If the Down query of each migration undoes its Up query, and a failing Up query changes
  -- nothing, then a failed applyMigrations leaves the database as it was.
  pub apply_migrations_atomic :
      (ms : List Migration) (logs : List MigrationLog) (w : World) {e : Error}
      → All IsReversible ms
      → (apply_migrations sql ms logs w).0 ≡ some e
      → (apply_migrations sql ms logs w).1 ≡ w
  apply_migrations_atomic ms logs w h x =
      let whole = apply_migrations_all sql ms logs w in
      rw whole (
        apply_all_atomic (pending logs ms) [] w w (All-pending IsReversible logs ms h)
          (unfold downs in refl) (rw whole at x))

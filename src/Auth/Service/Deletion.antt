-- ===== src/Auth/Service/Deletion.antt =====
-- Deleting a user.
use platforma.Base.{◌≡◌, ◌≢◌, ◌↔◌, some, arith, inl, inr, Option-cases}
use platforma.Base.Text.{Text}
use platforma.Base.Errors.{Result, ok, Result-cases}
use platforma.Auth.Service.{AuthEnv, Service, User, UserCleanupJob, delete_user}

module _ {W : Type 0} (env : AuthEnv W) (s : Service W) where
  -- DeleteUser succeeds exactly when both DELETE statements do, whatever the cleanup queue says.
  pub delete_user_ok_iff :
      (user : User) (w : W)
      → let sessions = s.auth_storage.delete_sessions_by_user_id user.id w in
        ((delete_user env s (some user) w).0 ≡ ok tt)
        ↔ ((sessions.0 ≡ ok tt) × ((env.delete_user_row user.id sessions.1).0 ≡ ok tt))
  unfolding delete_user
  delete_user_ok_iff user w = (ground arith, ground arith)

  abbrev pub owner : Text → W → Result Text
  owner id w = (s.auth_storage.get_user_id_from_session_id id w).0

  -- What the code relies on: the session storage finds none of the user's sessions once it has
  -- deleted them, and deleting a user's row, reading the clock or enqueueing a job adds none.
  pub record SessionStore : Type 0 where
    pub cleared :
        (user_id id : Text) (w : W)
        → (s.auth_storage.delete_sessions_by_user_id user_id w).0 ≡ ok tt
        → owner id (s.auth_storage.delete_sessions_by_user_id user_id w).1 ≢ ok user_id
    pub kept_by_delete :
        (user_id id : Text) (w : W) → owner id (env.delete_user_row user_id w).1 ≡ owner id w
    pub kept_by_clock : (id : Text) (w : W) → owner id (env.time_now w).1 ≡ owner id w
    pub kept_by_enqueue :
        {enqueue : UserCleanupJob → W → Result (Unit {0}) × W} (job : UserCleanupJob) (id : Text)
        (w : W)
        → s.cleanup_enqueuer ≡ some enqueue
        → owner id (enqueue job w).1 ≡ owner id w

  -- After a successful DeleteUser no session leads to the user, if the session storage finds none
  -- once it has deleted the user's sessions and nothing else that DeleteUser does adds one.
  pub delete_user_sessions :
      (store : SessionStore) (user : User) (id : Text) (w : W)
      → (delete_user env s (some user) w).0 ≡ ok tt
      → owner id (delete_user env s (some user) w).1 ≢ ok user.id
  unfolding delete_user
  delete_user_sessions store user id w h = elim (Result-cases sessions.0) [
    | inr (e, failed) ↦ absurd (ground (arith, failed))
    | inl (_, cleared) ↦ elim (Result-cases row.0) [
      | inr (e, failed) ↦ absurd (ground (arith, cleared, failed))
      | inl (_, gone) ↦
          let none_left = store.cleared user.id id w cleared in
          elim (Option-cases s.cleanup_enqueuer) [
            | inl none_set ↦ λ o. none_left (
                ground (arith, cleared, gone, none_set, store.kept_by_delete user.id id sessions.1))
            | inr (enqueue, set) ↦
                let time = env.time_now row.1 in
                λ o. none_left (
                  ground (
                    arith,
                    cleared,
                    gone,
                    set,
                    store.kept_by_delete user.id id sessions.1,
                    store.kept_by_clock id row.1,
                    store.kept_by_enqueue (record { user_id = user.id; deleted_at = time.0 }) id
                        time.1 set,
                  ))
          ]
    ]
  ]
    where
      sessions : Result (Unit {0}) × W
      sessions = s.auth_storage.delete_sessions_by_user_id user.id w

      row : Result (Unit {0}) × W
      row = env.delete_user_row user.id sessions.1

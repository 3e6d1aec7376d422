-- ===== src/Session.antt =====
-- session/: the service and the repository over the table of sessions.
pub mod Expiry
use platforma.Base.{ℕ, ◌+◌, ◌*◌, Bool, ltb}
use platforma.Base.Text.{Text}
use platforma.Base.Errors.{Error, Result, ok, err}
use platforma.Base.Action.{Action, Command, pure, wrap_action, ◌>>=◌}

pub record Session : Type 0 where
  pub id : Text
  pub user : Text
  pub created : ℕ  -- in nanoseconds
  pub expires : ℕ

-- Session.IsExpired at the time `now`.
unfoldable pub is_expired : Session → ℕ → Bool
is_expired session now = ltb session.expires now

-- What the repository and the service use of the SQL server, of github.com/google/uuid and of
-- package time: one action per statement.
pub record SessionDb (W : Type 0) : Type 0 where
  pub select_session : Text → Action W Session
  pub select_session_by_user : Text → Action W Session
  pub insert_session : Session → Command W
  pub delete_session : Text → Command W
  pub delete_sessions_by_user : Text → Command W
  pub new_session_id : W → Text × W
  pub time_now : W → ℕ × W

-- The interface authStorage of auth/service.go.
pub record AuthStorage (W : Type 0) : Type 0 where
  pub get_user_id_from_session_id : Text → Action W Text
  pub create_session_for_user : Text → Action W Text
  pub delete_session : Text → Command W
  pub delete_sessions_by_user_id : Text → Command W

-- 100 * 24 * time.Hour.
abbrev pub lifetime : ℕ
lifetime = 100 * 24 * 3600 * 1000000000

module _ {W : Type 0} (db : SessionDb W) where
  -- Repository.Get, GetByUserId, Create, Delete and DeleteByUserId.
  unfoldable pub repository_get : Text → Action W Session
  repository_get id = wrap_action "failed to get session by id" (db.select_session id)

  unfoldable pub repository_get_by_user_id : Text → Action W Session
  repository_get_by_user_id user_id =
      wrap_action "failed to get session by user id" (db.select_session_by_user user_id)

  unfoldable pub repository_create : Session → Command W
  repository_create session = wrap_action "failed to create session" (db.insert_session session)

  unfoldable pub repository_delete : Text → Command W
  repository_delete id = wrap_action "failed to delete session" (db.delete_session id)

  unfoldable pub repository_delete_by_user_id : Text → Command W
  repository_delete_by_user_id user_id =
      wrap_action "failed to delete sessions by user id" (db.delete_sessions_by_user user_id)

  -- Service.GetUserIdFromSessionId.
  unfoldable pub user_id_of_session : Text → Action W Text
  unfolding repository_get
  user_id_of_session id = do
    session ← wrap_action "failed to get session" (repository_get id)
    pure session.user

  -- The session that CreateSessionForUser builds: a fresh ID, then two readings of the clock.
  unfoldable pub new_session : Text → W → Session × W
  new_session user_id w =
      let (id, w₁) = db.new_session_id w in
      let (created, w₂) = db.time_now w₁ in
      let (now, w₃) = db.time_now w₂ in
      (record { id = id; user = user_id; created = created; expires = now + lifetime }, w₃)

  -- Service.CreateSessionForUser.
  unfoldable pub create_session : Text → Action W Text
  unfolding new_session repository_create
  create_session user_id w =
      let (session, w') = new_session user_id w in
      (do _ ← wrap_action "failed to create session" (repository_create session); pure session.id)
        w'

  -- The session service as auth/ uses it; the other methods of Service call the repository alone.
  abbrev pub session_storage : AuthStorage W
  session_storage = record {
    get_user_id_from_session_id = user_id_of_session;
    create_session_for_user = create_session;
    delete_session = repository_delete;
    delete_sessions_by_user_id = repository_delete_by_user_id;
  }

-- session.Domain and New. The repository is the database that it uses.
pub record SessionDomain (W : Type 0) : Type 0 where
  pub repository : SessionDb W
  pub service : AuthStorage W

abbrev pub session_domain : {W : Type 0} → SessionDb W → SessionDomain W
session_domain db = record { repository = db; service = session_storage db }

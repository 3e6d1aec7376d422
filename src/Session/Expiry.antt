-- ===== src/Session/Expiry.antt =====
-- What a session's row decides.
use platforma.Base.{◌≡◌, arith}
use platforma.Base.Text.{Text}
use platforma.Base.Errors.{ok}
use platforma.Session.{Session, SessionDb, user_id_of_session, create_session, new_session}

-- What the code relies on of the table: a row that was inserted is selected by its ID.
pub record SessionTable {W : Type 0} (db : SessionDb W) : Type 0 where
  pub selected :
      (s : Session) (w : W)
      → (db.insert_session s w).0 ≡ ok tt
      → (db.select_session s.id (db.insert_session s w).1).0 ≡ ok s

module _ {W : Type 0} (db : SessionDb W) where
  -- If an inserted row is selected by its ID, then a session ID that CreateSessionForUser returns
  -- names the user it was created for.
  pub create_session-user_id_of_session :
      (t : SessionTable db) (user_id id : Text) (w : W)
      → (create_session db user_id w).0 ≡ ok id
      → (user_id_of_session db id (create_session db user_id w).1).0 ≡ ok user_id
  unfolding create_session user_id_of_session
  create_session-user_id_of_session t user_id id w h =
      ground (arith, t.selected (new_session db user_id w).0 (new_session db user_id w).1)

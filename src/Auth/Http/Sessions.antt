-- ===== src/Auth/Http/Sessions.antt =====
-- The handlers of auth/ over the sessions of session/.
use platforma.Base.Text.{Text}
use platforma.Auth.Service.{Service}

-- ===== src/Repository/SessionRepo.antt =====
-- backend/internal/repository/session_repo.go.
use ats_proxy_manager.Prelude.{
  ℕ, ◌+◌, Bool, true, false, Option, none, some, [], ◌∷◌, ◌++◌, ◌==◌, ltb, ◌&&◌, Str, str_eq,
}
use ats_proxy_manager.Prelude.Table.{select_first, update_where}
use ats_proxy_manager.Domain.Enums.{not_found}
use ats_proxy_manager.Domain.Models.{Session}
use ats_proxy_manager.Store.{Db, M, or_raise, statement, ◌>>=◌}
use ats_proxy_manager.Repository.Keys.{has_user, checked}

-- What the caller of `Create` fills in.
pub record NewSession : Type 0 where
  pub user_id : ℕ
  pub token_hash : Str
  pub refresh_token_hash : Option Str
  pub ip_address : Option Str
  pub user_agent : Option Str
  pub expires_at : ℕ

abbrev pub session_row : ℕ → ℕ → NewSession → Session
session_row id now s = record {
  id = id;
  user_id = s.user_id;
  token_hash = s.token_hash;
  refresh_token_hash = s.refresh_token_hash;
  ip_address = s.ip_address;
  user_agent = s.user_agent;
  last_beacon = now;
  expires_at = s.expires_at;
  created_at = now;
  revoked_at = none;
}

unfoldable pub create : NewSession → M Session
create s = statement λ now db. checked (has_user s.user_id db) (
  session_row db.serial now s,
  record db { sessions = db.sessions ++ session_row db.serial now s ∷ []; serial = db.serial + 1 },
)

abbrev pub is_open : Option ℕ → Bool
is_open none = true
is_open (some t) = false

-- token_hash = hash AND revoked_at IS NULL AND expires_at > NOW()
abbrev pub is_live : Str → ℕ → Session → Bool
is_live hash now s = str_eq s.token_hash hash && is_open s.revoked_at && ltb now s.expires_at

unfoldable pub get_by_token_hash : Str → M Session
get_by_token_hash hash = do
  found ← statement (λ now db. some (select_first (is_live hash now) db.sessions, db))
  or_raise found not_found

abbrev pub has_refresh_hash : Str → Option Str → Bool
has_refresh_hash hash none = false
has_refresh_hash hash (some h) = str_eq h hash

-- refresh_token_hash = hash AND revoked_at IS NULL
abbrev pub is_refreshable : Str → Session → Bool
is_refreshable hash s = has_refresh_hash hash s.refresh_token_hash && is_open s.revoked_at

unfoldable pub get_by_refresh_token_hash : Str → M Session
get_by_refresh_token_hash hash = do
  found ← statement (λ now db. some (select_first (is_refreshable hash) db.sessions, db))
  or_raise found not_found

-- UPDATE sessions SET f WHERE id = id.
unfoldable pub set_session : ℕ → (Session → Session) → Db → Db
set_session id f db = record db { sessions = update_where (λ s. s.id == id) f db.sessions }

unfoldable pub update_beacon : ℕ → ℕ → M (Unit {0})
unfolding set_session
update_beacon id new_expiry = statement λ now db.
    some (tt, set_session id (λ s. record s { last_beacon = now; expires_at = new_expiry }) db)

unfoldable pub update_tokens : ℕ → Str → ℕ → M (Unit {0})
unfolding set_session
update_tokens id hash expires_at = statement λ now db.
    some (tt, set_session id (λ s. record s { token_hash = hash; expires_at = expires_at }) db)

unfoldable pub revoke : ℕ → M (Unit {0})
unfolding set_session
revoke id =
    statement λ now db. some (tt, set_session id (λ s. record s { revoked_at = some now }) db)

unfoldable pub revoke_all_for_user : ℕ → M (Unit {0})
revoke_all_for_user user_id = statement λ now db. some (
  tt,
  record db {
    sessions =
        update_where (λ s. s.user_id == user_id && is_open s.revoked_at)
          (λ s. record s { revoked_at = some now }) db.sessions;
  },
)

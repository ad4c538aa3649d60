-- ===== src/Repository/UserRepo.antt =====
-- backend/internal/repository/user_repo.go. A trigger of the migrations sets `updated_at` of every
-- row that an UPDATE touches.
use ats_proxy_manager.Prelude.{
  ℕ, ◌+◌, Bool, true, not, none, some, [], ◌∷◌, ◌++◌, ◌==◌, ◌&&◌, ◌||◌, Str, str_eq,
}
use ats_proxy_manager.Prelude.Table.{select_first, some_row, update_where}
use ats_proxy_manager.Domain.Enums.{UserRole, UserRole_is_valid, not_found}
use ats_proxy_manager.Domain.Models.{User}
use ats_proxy_manager.Store.{Db, M, guard, or_raise, statement, ◌>>=◌}
use ats_proxy_manager.Repository.Keys.{find_user, has_user, checked}

-- What the caller of `Create` fills in.
pub record NewUser : Type 0 where
  pub username : Str
  pub email : Str
  pub password_hash : Str
  pub role : UserRole

unfoldable pub get_by_id : ℕ → M User
get_by_id id = do found ← statement (λ now db. some (find_user id db, db)); or_raise found not_found

unfoldable pub get_by_email : Str → M User
get_by_email email = do
  found ← statement (λ now db. some (select_first (λ u. str_eq u.email email) db.users, db))
  or_raise found not_found

-- Another row than that of `id` has the name or the address: both are unique.
abbrev pub is_taken : ℕ → Str → Str → Db → Bool
is_taken id username email db =
    some_row (λ u. not (u.id == id) && (str_eq u.username username || str_eq u.email email))
      db.users

abbrev pub user_row : ℕ → ℕ → NewUser → User
user_row id now u = record {
  id = id;
  username = u.username;
  email = u.email;
  password_hash = u.password_hash;
  role = u.role;
  created_at = now;
  updated_at = now;
  last_login = none;
  is_active = true;
}

-- The role is an enum of the database.
unfoldable pub create : NewUser → M User
create u = statement λ now db.
    checked
      (UserRole_is_valid u.role
        && not (some_row (λ o. str_eq o.username u.username || str_eq o.email u.email) db.users))
      (
        user_row db.serial now u,
        record db { users = db.users ++ user_row db.serial now u ∷ []; serial = db.serial + 1 },
      )

-- UPDATE users SET f WHERE id = id.
unfoldable pub set_user : ℕ → ℕ → (User → User) → Db → Db
set_user id now f db = record db {
  users = update_where (λ u. u.id == id) (λ u. record (f u) { updated_at = now }) db.users;
}

unfoldable pub update : User → M (Unit {0})
unfolding set_user
update u = do
  affected ← statement λ now db.
      checked
        (UserRole_is_valid u.role
          && (not (has_user u.id db) || not (is_taken u.id u.username u.email db)))
        (
          has_user u.id db,
          set_user u.id now
              (λ o. record o { username = u.username; email = u.email; role = u.role }) db,
        )
  guard affected not_found

unfoldable pub update_password : ℕ → Str → M (Unit {0})
unfolding set_user
update_password id hash = do
  affected ←
      statement
        λ now db. some (has_user id db, set_user id now (λ o. record o { password_hash = hash }) db)
  guard affected not_found

-- The row stays, without access.
unfoldable pub delete : ℕ → M (Unit {0})
unfolding set_user
delete id = do
  affected ←
      statement λ now db.
        some (has_user id db, set_user id now (λ o. record o { is_active = Bool.false }) db)
  guard affected not_found

unfoldable pub update_last_login : ℕ → M (Unit {0})
unfolding set_user
update_last_login id =
    statement λ now db. some (tt, set_user id now (λ o. record o { last_login = some now }) db)

-- ===== src/Domain/Models.antt =====
-- backend/internal/domain/models.go. A UUID is a number, `time.Time` counts nanoseconds, a nil
-- pointer is `none`, and `int` and `int64` counters that only come from the helper are naturals.
use ats_proxy_manager.Prelude.{ℕ, Bool, Option, ℤ, Str}
use ats_proxy_manager.Domain.Enums.{UserRole, ConfigStatus, RuleAction, AclAction}

pub record User : Type 0 where
  pub id : ℕ
  pub username : Str
  pub email : Str
  pub password_hash : Str
  pub role : UserRole
  pub created_at : ℕ
  pub updated_at : ℕ
  pub last_login : Option ℕ
  pub is_active : Bool

pub record Session : Type 0 where
  pub id : ℕ
  pub user_id : ℕ
  pub token_hash : Str
  pub refresh_token_hash : Option Str
  pub ip_address : Option Str
  pub user_agent : Option Str
  pub last_beacon : ℕ
  pub expires_at : ℕ
  pub created_at : ℕ
  pub revoked_at : Option ℕ

pub record Config : Type 0 where
  pub id : ℕ
  pub name : Str
  pub description : Option Str
  pub status : ConfigStatus
  pub version : ℕ
  pub default_action : RuleAction
  pub created_by : Option ℕ
  pub created_at : ℕ
  pub modified_by : Option ℕ
  pub modified_at : ℕ
  pub submitted_by : Option ℕ
  pub submitted_at : Option ℕ
  pub approved_by : Option ℕ
  pub approved_at : Option ℕ
  pub config_hash : Option Str

pub record DomainRule : Type 0 where
  pub id : ℕ
  pub config_id : ℕ
  pub domain : Str
  pub action : RuleAction
  pub priority : ℤ
  pub created_at : ℕ

pub record IpRangeRule : Type 0 where
  pub id : ℕ
  pub config_id : ℕ
  pub cidr : Str
  pub action : RuleAction
  pub priority : ℤ
  pub created_at : ℕ

pub record ClientAclRule : Type 0 where
  pub id : ℕ
  pub config_id : ℕ
  pub cidr : Str
  pub action : AclAction
  pub priority : ℤ
  pub created_at : ℕ

pub record ParentProxy : Type 0 where
  pub id : ℕ
  pub config_id : ℕ
  pub address : Str
  pub port : ℤ
  pub priority : ℤ
  pub enabled : Bool
  pub created_at : ℕ

pub record Proxy : Type 0 where
  pub id : ℕ
  pub hostname : Str
  pub config_id : Option ℕ
  pub is_online : Bool
  pub last_seen : Option ℕ
  pub current_config_hash : Option Str
  pub registered_at : ℕ
  pub registered_ip : Option Str
  pub capture_logs_until : Option ℕ

pub record ConfigProxy : Type 0 where
  pub config_id : ℕ
  pub proxy_id : ℕ
  pub assigned_at : ℕ
  pub assigned_by : Option ℕ

pub record ProxyLog : Type 0 where
  pub id : ℕ
  pub proxy_id : ℕ
  pub captured_at : ℕ
  pub log_level : Option Str
  pub message : Option Str
  pub expires_at : ℕ

pub record AuditLog : Type 0 where
  pub id : ℕ
  pub user_id : Option ℕ
  pub action : Str
  pub entity_type : Str
  pub entity_id : Option ℕ
  pub old_value : Option Str
  pub new_value : Option Str
  pub ip_address : Option Str
  pub user_agent : Option Str
  pub created_at : ℕ

pub record ProxyStat : Type 0 where
  pub id : ℕ
  pub proxy_id : ℕ
  pub collected_at : ℕ
  pub active_connections : ℕ
  pub total_connections : ℕ
  pub cache_hits : ℕ
  pub cache_misses : ℕ
  pub errors : ℕ
  pub total_requests : ℕ
  pub connect_requests : ℕ
  pub responses2xx : ℕ
  pub responses3xx : ℕ
  pub responses4xx : ℕ
  pub responses5xx : ℕ
  pub err_connect_fail : ℕ
  pub err_client_abort : ℕ
  pub broken_server_conns : ℕ
  pub bytes_in : ℕ
  pub bytes_out : ℕ

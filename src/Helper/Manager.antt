-- ===== src/Helper/Manager.antt =====
-- helper/internal/ats/manager.go: the files of Apache Traffic Server and its reload. The counters of
-- `CollectStats` are left out: a stats message carries whatever was read.
pub mod Apply
pub mod Logs
pub mod Mentions
use ats_proxy_manager.Prelude.{
  ℕ, Bool, true, false, Option, none, some, List, [], ◌∷◌, ◌++◌, ltb, ◌||◌, if◌then◌else◌, Str,
  codes,
}
use ats_proxy_manager.Helper.Host.{
  Failure, other, Act, give, fail, either, ◌>>=◌, ◌>>◌, Event, reloaded, configured,
  write_file_once, rename, read_file, command,
}
use ats_proxy_manager.Helper.Client.{ConfigFiles}

abbrev pub parent_file : Str
parent_file = codes "parent.config"

abbrev pub sni_file : Str
sni_file = codes "sni.yaml"

abbrev pub ip_allow_file : Str
ip_allow_file = codes "ip_allow.yaml"

abbrev pub hash_file : Str
hash_file = codes ".config_hash"

abbrev pub temporary : Str → Str
temporary name = name ++ codes ".tmp"

-- `writeFile`: a temporary file, then a rename.
unfoldable pub write_file : Str → Str → Act (Unit {0})
write_file name content = do write_file_once (temporary name) content; rename (temporary name) name

-- An empty text is not written.
unfoldable pub write_if_set : Str → Str → Act (Unit {0})
write_if_set name [] = give tt
write_if_set name (c ∷ s) = write_file name (c ∷ s)

unfoldable pub apply_config : Option ConfigFiles → Act (Unit {0})
apply_config none = fail other
apply_config (some cfg) = do
  write_if_set parent_file cfg.parent_config
  write_if_set sni_file cfg.sni_yaml
  write_if_set ip_allow_file cfg.ip_allow_yaml

abbrev pub debug_enabled : Str
debug_enabled = codes "proxy.config.diags.debug.enabled"

abbrev pub debug_tags : Str
debug_tags = codes "proxy.config.diags.debug.tags"

unfoldable pub enable_debug : Act (Unit {0})
enable_debug = do
  command (configured debug_enabled (codes "1"))
  command (configured debug_tags (codes "parent_select"))

unfoldable pub disable_debug : Act (Unit {0})
disable_debug = command (configured debug_enabled (codes "0"))

unfoldable pub reload : Act (Unit {0})
reload = command reloaded

-- `strings.TrimSpace` is a parameter.
unfoldable pub get_current_hash : (Str → Str) → Act Str
get_current_hash trim = either (read_file hash_file) (λ s. give (trim s)) (λ e. give [])

unfoldable pub save_hash : Str → Act (Unit {0})
save_hash hash = write_file_once hash_file hash

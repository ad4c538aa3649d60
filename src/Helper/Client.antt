-- ===== src/Helper/Client.antt =====
-- helper/internal/sync/client.go. Encoding and decoding of JSON are parameters: a message stands for its
-- body.
use ats_proxy_manager.Prelude.{
  ℕ, Bool, false, Option, none, some, List, [], ◌∷◌, ◌==◌, leb, if◌then◌else◌, Str,
}
use ats_proxy_manager.Helper.Host.{
  Message, Reply, unreachable, replied, Failure, http, other, Act, give, fail, ◌>>=◌, exchange,
  set_proxy_id, get_proxy_id,
}

pub record ConfigFiles : Type 0 where
  pub parent_config : Str
  pub sni_yaml : Str
  pub ip_allow_yaml : Str

pub record ConfigResponse : Type 0 where
  pub unchanged : Bool
  pub hash : Str
  pub config : Option ConfigFiles
  pub capture_logs : Bool
  pub capture_until : ℕ

pub record RegisterResponse : Type 0 where
  pub proxy_id : Str
  pub config_id : Str
  pub status : Str

-- `json.Unmarshal`; none is an error.
pub record Json : Type 0 where
  pub config_response : Str → Option ConfigResponse
  pub register_response : Str → Option RegisterResponse

-- What the fields of `Config` give: the base URL stands for itself.
pub record Settings : Type 0 where
  pub hostname : Str
  pub config_id : Str

-- The zero values, which an empty body leaves.
abbrev pub no_config : ConfigResponse
no_config = record {
  unchanged = false;
  hash = [];
  config = none;
  capture_logs = false;
  capture_until = 0;
}

abbrev pub no_registration : RegisterResponse
no_registration = record { proxy_id = []; config_id = []; status = [] }

abbrev pub decoded : {A : Type 0} → Option A → Act A
decoded none = fail other
decoded (some a) = give a

abbrev pub body_of : {A : Type 0} → (Str → Option A) → A → Str → Act A
body_of decode empty [] = give empty
body_of decode empty (c ∷ s) = decoded (decode (c ∷ s))

abbrev pub accepted : {A : Type 0} → (Str → Option A) → A → Reply → Act A
accepted decode empty unreachable = fail other
accepted decode empty (replied status body) =
    if leb 400 status then fail (http status) else body_of decode empty body

-- `doRequestWith`, with a response to fill.
unfoldable pub do_request : {A : Type 0} → (Str → Option A) → A → Message → Act A
do_request decode empty m = do reply ← exchange m; accepted decode empty reply

abbrev pub no_body : Str → Option (Unit {0})
no_body s = some tt

-- `IsHTTPStatus`.
unfoldable pub is_http_status : Failure → ℕ → Bool
is_http_status (http status) code = status == code
is_http_status other code = false

module _ (json : Json) (cfg : Settings) where
  unfoldable pub hello : Act (Unit {0})
  hello = do_request no_body tt Message.hello

  unfoldable pub register : Act (Unit {0})
  register = do
    id ← get_proxy_id
    resp ←
        do_request json.register_response no_registration
          (Message.register cfg.hostname cfg.config_id id)
    set_proxy_id resp.proxy_id

  unfoldable pub get_config : Str → Act ConfigResponse
  get_config current_hash =
      do_request json.config_response no_config (Message.get_config cfg.hostname current_hash)

  unfoldable pub ack : Str → Str → Act (Unit {0})
  ack hash status = do_request no_body tt (Message.ack cfg.hostname hash status)

  unfoldable pub send_stats : Act (Unit {0})
  send_stats = do_request no_body tt (Message.stats cfg.hostname)

  unfoldable pub send_logs : List Str → Act (Unit {0})
  send_logs lines = do_request no_body tt (Message.logs cfg.hostname lines)

-- ===== src/Node/Config.antt =====
-- `NodeConfig`: how the file, the environment and the command line are merged, and what is refused.
-- A path is its text, and the environment a function from names.
pub mod Precedence
mod Tests
use triptorrent.Base.{
  ℕ, List, Bool, true, false, not, ◌||◌, Option, none, some, length, ltb, ◌==◌, Result, ok, err,
  guard, ok_or, ◌>>=◌, ◌>>◌,
}
use triptorrent.Base.Bytes.{Bytes}
use triptorrent.Base.Text.{ascii}

pub data ConfigError : Type 0 where
  not_loopback short_token no_transfers many_transfers long_text : ConfigError
  invalid_api_listen invalid_bootstrap invalid_download_limit invalid_upload_limit : ConfigError
  invalid_max_concurrent_transfers : ConfigError

pub record NodeConfig (Addr : Type 0) : Type 0 where
  pub data_dir : Bytes
  pub api_listen : Addr
  pub bootstrap : Option Addr
  pub download_limit : ℕ
  pub upload_limit : ℕ
  pub max_concurrent_transfers : ℕ
  pub log_level : Bytes
  pub api_token : Bytes

pub record ConfigOverrides (Addr : Type 0) : Type 0 where
  pub data_dir : Option Bytes
  pub api_listen : Option Addr
  pub bootstrap : Option Addr
  pub download_limit : Option ℕ
  pub upload_limit : Option ℕ
  pub max_concurrent_transfers : Option ℕ
  pub log_level : Option Bytes

-- `if let Some(value) = environment.get(..)`, with the parser of the value.
abbrev pub from_environment :
    {A : Type 0} → Option Bytes → (Bytes → Option A) → ConfigError → A → Result ConfigError A
from_environment none parse why old = ok old
from_environment (some value) parse why old = ok_or (parse value) why

-- `if let Some(value) = overrides..`
abbrev pub from_override : {A : Type 0} → Option A → A → A
from_override none old = old
from_override (some value) old = value

abbrev pub wrap : {A : Type 0} → Option A → Option (Option A)
wrap none = none
wrap (some value) = some (some value)

-- `parse_addr`, `parse_u64` and `parse_usize` are `str::parse` at these types, and `is_loopback` is
-- that of the address.
module _ {Addr : Type 0} (parse_addr : Bytes → Option Addr) (is_loopback : Addr → Bool)
    (parse_u64 : Bytes → Option ℕ) (parse_usize : Bytes → Option ℕ) where
  unfoldable pub validate : NodeConfig Addr → Result ConfigError (Unit {0})
  validate c = do
    guard (is_loopback c.api_listen) not_loopback
    guard (not (ltb (length c.api_token) 32)) short_token
    guard (not (c.max_concurrent_transfers == 0)) no_transfers
    guard (not (ltb 128 c.max_concurrent_transfers)) many_transfers
    guard (not (ltb 512 (length c.api_token) || ltb 256 (length c.log_level))) long_text

  unfoldable pub merge :
      NodeConfig Addr
      → (Bytes → Option Bytes)
      → ConfigOverrides Addr
      → Result ConfigError (NodeConfig Addr)
  unfolding validate
  merge c environment over = do
    data_dir ←
        from_environment (environment (ascii "TRIPTORRENT_DATA_DIR")) some long_text c.data_dir
    api_listen ←
        from_environment (environment (ascii "TRIPTORRENT_API_LISTEN")) parse_addr
          invalid_api_listen c.api_listen
    bootstrap ←
        from_environment (environment (ascii "TRIPTORRENT_BOOTSTRAP"))
          (λ value. wrap (parse_addr value)) invalid_bootstrap c.bootstrap
    download_limit ←
        from_environment (environment (ascii "TRIPTORRENT_DOWNLOAD_LIMIT")) parse_u64
          invalid_download_limit c.download_limit
    upload_limit ←
        from_environment (environment (ascii "TRIPTORRENT_UPLOAD_LIMIT")) parse_u64
          invalid_upload_limit c.upload_limit
    max_concurrent_transfers ←
        from_environment (environment (ascii "TRIPTORRENT_MAX_CONCURRENT_TRANSFERS")) parse_usize
          invalid_max_concurrent_transfers c.max_concurrent_transfers
    log_level ← from_environment (environment (ascii "TRIPTORRENT_LOG")) some long_text c.log_level
    let merged : NodeConfig Addr = record {
      data_dir = from_override over.data_dir data_dir;
      api_listen = from_override over.api_listen api_listen;
      bootstrap = from_override (wrap over.bootstrap) bootstrap;
      download_limit = from_override over.download_limit download_limit;
      upload_limit = from_override over.upload_limit upload_limit;
      max_concurrent_transfers =
          from_override over.max_concurrent_transfers max_concurrent_transfers;
      log_level = from_override over.log_level log_level;
      api_token = c.api_token;
    }
    validate merged
    ok merged

-- ===== src/Node/Config/Precedence.antt =====
-- Where each setting comes from, and what holds of the merged configuration.
use triptorrent.Base.{
  ℕ, ◌≤◌, ◌≡◌, refl, sym, subst, Bool, true, false, not, Option, none, some, length, ltb, ◌==◌, ok,
  guard, arith, >>=-eq-ok, ok-injective, guard-eq-ok, ok_or-eq-ok,
}
use triptorrent.Base.Bytes.{Bytes}
use triptorrent.Base.Text.{ascii}
use triptorrent.Node.Config.{
  ConfigError, not_loopback, short_token, no_transfers, many_transfers, long_text, NodeConfig,
  ConfigOverrides, from_environment, from_override, wrap, validate, merge,
}

-- The command line decides, else the environment, whose text must parse, else the file.
abbrev pub Chosen : {A : Type 0} → Option A → Option Bytes → (Bytes → Option A) → A → A → Type 0
Chosen (some value) text parse file result = result ≡ value
Chosen none (some text) parse file result = parse text ≡ some result
Chosen none none parse file result = result ≡ file

chosen :
    {A : Type 0} (value : Option A) (text : Option Bytes) (parse : Bytes → Option A)
    (why : ConfigError) (file middle : A)
    → from_environment text parse why file ≡ ok middle
    → Chosen value text parse file (from_override value middle)
chosen (some value) text parse why file middle h = refl
chosen none (some text) parse why file middle h = ok_or-eq-ok (parse text) why h
chosen none none parse why file middle h = sym (ok-injective h)

guard_ok : (t : Bool) (why : ConfigError) {u : Unit {0}} → guard t why ≡ ok u → t ≡ true
guard_ok true why h = refl
guard_ok false why h = cc

module _ {Addr : Type 0} (parse_addr : Bytes → Option Addr) (is_loopback : Addr → Bool)
    (parse_u64 : Bytes → Option ℕ) (parse_usize : Bytes → Option ℕ) where
  abbrev pub Valid : NodeConfig Addr → Type 0
  Valid c =
      (is_loopback c.api_listen ≡ true)
      × (32 ≤ length c.api_token)
      × (length c.api_token ≤ 512)
      × (1 ≤ c.max_concurrent_transfers)
      × (c.max_concurrent_transfers ≤ 128)
      × (length c.log_level ≤ 256)

  abbrev pub Merged :
      NodeConfig Addr → (Bytes → Option Bytes) → ConfigOverrides Addr → NodeConfig Addr → Type 0
  Merged c env over m =
      Chosen over.data_dir (env (ascii "TRIPTORRENT_DATA_DIR")) some c.data_dir m.data_dir
      × Chosen over.api_listen (env (ascii "TRIPTORRENT_API_LISTEN")) parse_addr c.api_listen
          m.api_listen
      × Chosen (wrap over.bootstrap) (env (ascii "TRIPTORRENT_BOOTSTRAP"))
          (λ value. wrap (parse_addr value)) c.bootstrap m.bootstrap
      × Chosen over.download_limit (env (ascii "TRIPTORRENT_DOWNLOAD_LIMIT")) parse_u64
          c.download_limit m.download_limit
      × Chosen over.upload_limit (env (ascii "TRIPTORRENT_UPLOAD_LIMIT")) parse_u64 c.upload_limit
          m.upload_limit
      × Chosen over.max_concurrent_transfers (env (ascii "TRIPTORRENT_MAX_CONCURRENT_TRANSFERS"))
          parse_usize c.max_concurrent_transfers m.max_concurrent_transfers
      × Chosen over.log_level (env (ascii "TRIPTORRENT_LOG")) some c.log_level m.log_level
      × (m.api_token ≡ c.api_token)

  validate-Valid :
      (c : NodeConfig Addr) (u : Unit {0})
      → validate parse_addr is_loopback parse_u64 parse_usize c ≡ ok u
      → Valid c
  unfolding validate
  validate-Valid c u h =
      let (local, h₁) = guard-eq-ok (is_loopback c.api_listen) not_loopback h in
      let (long, h₂) = guard-eq-ok (not (ltb (length c.api_token) 32)) short_token h₁ in
      let (some_transfers, h₃) =
        guard-eq-ok (not (c.max_concurrent_transfers == 0)) no_transfers h₂ in
      let (few_transfers, h₄) =
        guard-eq-ok (not (ltb 128 c.max_concurrent_transfers)) many_transfers h₃ in
      let texts = guard_ok _ long_text h₄ in
      (
        local,
        ground (arith, long),
        ground (arith, texts),
        ground (arith, some_transfers),
        ground (arith, few_transfers),
        ground (arith, texts),
      )

  -- A configuration that `merge` returns is valid, and takes each setting from the command line, else
  -- from the environment, else from the file; the token is always that of the file.
  pub merge_sound :
      (c m : NodeConfig Addr) (env : Bytes → Option Bytes) (over : ConfigOverrides Addr)
      → merge parse_addr is_loopback parse_u64 parse_usize c env over ≡ ok m
      → Valid m × Merged c env over m
  unfolding merge
  merge_sound c m env over h =
      let (data_dir, e₁, h₁) =
        >>=-eq-ok (from_environment (env (ascii "TRIPTORRENT_DATA_DIR")) some long_text c.data_dir)
          _ h in
      let (api_listen, e₂, h₂) =
        >>=-eq-ok
          (from_environment (env (ascii "TRIPTORRENT_API_LISTEN")) parse_addr
            ConfigError.invalid_api_listen c.api_listen)
          _ h₁ in
      let (bootstrap, e₃, h₃) =
        >>=-eq-ok
          (from_environment (env (ascii "TRIPTORRENT_BOOTSTRAP")) (λ value. wrap (parse_addr value))
            ConfigError.invalid_bootstrap c.bootstrap)
          _ h₂ in
      let (download_limit, e₄, h₄) =
        >>=-eq-ok
          (from_environment (env (ascii "TRIPTORRENT_DOWNLOAD_LIMIT")) parse_u64
            ConfigError.invalid_download_limit c.download_limit)
          _ h₃ in
      let (upload_limit, e₅, h₅) =
        >>=-eq-ok
          (from_environment (env (ascii "TRIPTORRENT_UPLOAD_LIMIT")) parse_u64
            ConfigError.invalid_upload_limit c.upload_limit)
          _ h₄ in
      let (transfers, e₆, h₆) =
        >>=-eq-ok
          (from_environment (env (ascii "TRIPTORRENT_MAX_CONCURRENT_TRANSFERS")) parse_usize
            ConfigError.invalid_max_concurrent_transfers c.max_concurrent_transfers)
          _ h₅ in
      let (log_level, e₇, h₇) =
        >>=-eq-ok (from_environment (env (ascii "TRIPTORRENT_LOG")) some long_text c.log_level) _
          h₆ in
      let merged : NodeConfig Addr = record {
        data_dir = from_override over.data_dir data_dir;
        api_listen = from_override over.api_listen api_listen;
        bootstrap = from_override (wrap over.bootstrap) bootstrap;
        download_limit = from_override over.download_limit download_limit;
        upload_limit = from_override over.upload_limit upload_limit;
        max_concurrent_transfers = from_override over.max_concurrent_transfers transfers;
        log_level = from_override over.log_level log_level;
        api_token = c.api_token;
      } in
      let (u, valid, h₈) =
        >>=-eq-ok (validate parse_addr is_loopback parse_u64 parse_usize merged) _ h₇ in
      let taken : Merged c env over merged = (
        chosen over.data_dir _ some long_text c.data_dir data_dir e₁,
        chosen over.api_listen _ parse_addr _ c.api_listen api_listen e₂,
        chosen (wrap over.bootstrap) _ (λ value. wrap (parse_addr value)) _ c.bootstrap bootstrap
            e₃,
        chosen over.download_limit _ parse_u64 _ c.download_limit download_limit e₄,
        chosen over.upload_limit _ parse_u64 _ c.upload_limit upload_limit e₅,
        chosen over.max_concurrent_transfers _ parse_usize _ c.max_concurrent_transfers transfers
            e₆,
        chosen over.log_level _ some long_text c.log_level log_level e₇,
        refl,
      ) in
      subst (λ x. Valid x × Merged c env over x) (ok-injective h₈)
        (validate-Valid merged u valid, taken)

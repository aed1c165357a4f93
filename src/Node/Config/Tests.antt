-- ===== src/Node/Config/Tests.antt =====
-- A configuration from a file, with an override. An address is a number, and the loopback is 1.
use triptorrent.Base.{ℕ, ◌==◌, ◌≡◌, refl, Bool, Option, none, some, ok, err}
use triptorrent.Base.Bytes.{Bytes}
use triptorrent.Base.Text.{ascii}
use triptorrent.Node.Config.{NodeConfig, ConfigOverrides, not_loopback, merge}
use triptorrent.Node.Config.Precedence.{Valid, Merged, merge_sound}

abbrev no_addr : Bytes → Option ℕ
no_addr text = none

abbrev is_one : ℕ → Bool
is_one a = a == 1

abbrev no_number : Bytes → Option ℕ
no_number text = none

abbrev from_file : NodeConfig ℕ
from_file = record {
  data_dir = ascii "data";
  api_listen = 1;
  bootstrap = none;
  download_limit = 0;
  upload_limit = 0;
  max_concurrent_transfers = 4;
  log_level = ascii "info";
  api_token = ascii "0123456789abcdef0123456789abcdef";
}

abbrev limited : ConfigOverrides ℕ
limited = record {
  data_dir = none;
  api_listen = none;
  bootstrap = none;
  download_limit = some 9;
  upload_limit = none;
  max_concurrent_transfers = none;
  log_level = none;
}

abbrev bare : Bytes → Option Bytes
bare name = none

taken :
    merge no_addr is_one no_number no_number from_file bare limited
    ≡ ok (record from_file { download_limit = 9 })
unfolding merge
taken = refl

abroad :
    merge no_addr is_one no_number no_number from_file bare (record limited { api_listen = some 2 })
    ≡ err not_loopback
unfolding merge
abroad = refl

merge_sound_example :
    Valid no_addr is_one no_number no_number (record from_file { download_limit = 9 })
    × Merged no_addr is_one no_number no_number from_file bare limited
        (record from_file { download_limit = 9 })
merge_sound_example =
    merge_sound no_addr is_one no_number no_number from_file
      (record from_file { download_limit = 9 }) bare limited taken

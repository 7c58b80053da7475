-- ===== src/Config/Examples.antt =====
-- Tests of internal/config.
use perch_apd.Base.{ℕ, true, false, some, [], ◌∷◌, ◌≡◌, refl, bytes_beq, Bytes, codes, bytes_eq}
use perch_apd.Base.Text.{trim_space, to_lower, fields}
use perch_apd.Uci.File.{File, empty, get, get_list, parse, bytes, has_section}
use perch_apd.Config.{
  Config, access_none, UrlKit, load, save_credentials, parse_seconds, parse_bool, parse_access,
  normalize_controller_url, section_name,
}
use perch_apd.Config.Saved.{joined, load-save_credentials}
use perch_apd.Config.Sound.{IsSound, load-IsSound}

-- URLs with the parts that the tests need: the scheme and the rest.
abbrev urls : UrlKit
urls = record {
  Url = Bytes;
  parse = λ s. some s;
  scheme = λ u. codes "https";
  host = λ u. u;
  hostname = λ u. u;
  has_user = λ u. false;
  path = λ u. [];
  with_path = λ p u. u;
  text = λ u. u;
}

abbrev limit : ℕ
limit = 2147483648

abbrev text : Bytes
text =
    codes
      "config agent 'main'\n\toption join_token 'abc'\n\toption controller 'perch.lan'\n\tlist update_key ' RW1 '\n"

abbrev expected : Config
expected = record {
  enabled = true;
  controller = codes "https://perch.lan";
  join_token = codes "abc";
  agent_id = [];
  agent_secret = [];
  tls_insecure = false;
  ca_file = [];
  log_level = codes "info";
  ports = true;
  wifi_groups = false;
  wifi_groups_insecure = false;
  wifi_config = access_none;
  wifi_config_allow = codes "wireless" ∷ codes "network" ∷ [];
  wifi_config_ignored = [];
  wifi_config_insecure = false;
  wifi_config_confirm_max = 900;
  self_update = true;
  update_keys = codes "RW1" ∷ [];
}

text_loads : load urls limit (parse text) ≡ some expected
unfolding load normalize_controller_url parse get get_list trim_space to_lower fields bytes_beq
    parse_seconds parse_bool parse_access
text_loads = refl

text_section : has_section (parse text) section_name ≡ true
unfolding has_section parse trim_space bytes_beq
text_section = refl

load-save_credentials_example :
    (g : File) × (save_credentials false empty
        (codes "id-1")
        (codes "s3cret")
        (parse text, expected)
      ≡ some (
        g,
        record expected { agent_id = codes "id-1"; agent_secret = codes "s3cret"; join_token = [] },
      ))
    × (load urls limit (parse (bytes g)) ≡ some (joined (codes "id-1") (codes "s3cret") expected))
load-save_credentials_example =
    load-save_credentials urls limit text (codes "id-1") (codes "s3cret") false empty expected refl
      refl refl refl refl text_section text_loads

load-IsSound_example : IsSound expected
load-IsSound_example = load-IsSound urls limit (parse text) expected text_loads

clamped_test : parse_seconds limit (codes " 99999 ") 900 30 1800 ≡ 1800
unfolding parse_seconds trim_space
clamped_test = refl

too_large : parse_seconds limit (codes "9999999999") 900 30 1800 ≡ 900
unfolding parse_seconds trim_space
too_large = refl

-- ===== src/Uci/Examples.antt =====
-- Tests of internal/uci on a small wireless configuration.
use perch_apd.Base.{
  List, ◌&&◌, some, [], ◌∷◌, ◌≡◌, ◌≢◌, refl, Bytes, bytes_eq, bytes_beq, ◌==◌, codes, if◌then◌else◌,
}
use perch_apd.Uci.Tokens.{tokenize}
use perch_apd.Uci.File.{File, parse, bytes, set, get, updated, crashed, SetResult}
use perch_apd.Uci.File.Calls.{
  EditCall, set_call, delete_call, ensure_call, edit_calls, set-edit_calls,
}
use perch_apd.Uci.File.Access.{get-set}
use perch_apd.Uci.File.RoundTrip.{bytes-parse, normal_text, with_newline}
use perch_apd.Uci.File.Rewrite.{parse-bytes-set}

abbrev text : Bytes
text =
    codes
      "# wifi\nconfig wifi-iface 'w0'\n\toption ssid 'it'\\''s home'\n\tlist x '1'\n\nconfig other\n"

abbrev file_in : SetResult → File
file_in (updated g) = g
file_in _ = record { lines = []; sections = [] }

abbrev edited : File
edited = file_in (set (parse text) (codes "w0") (codes "ssid") (codes "new 'net'"))

edited_is : set (parse text) (codes "w0") (codes "ssid") (codes "new 'net'") ≡ updated edited
unfolding set parse tokenize bytes_beq
edited_is = refl

get-set_example : get edited (codes "w0") (codes "ssid") ≡ (
    if (codes "w0" == codes "w0") && (codes "ssid" == codes "ssid")
    then some (codes "new 'net'")
    else get (parse text) (codes "w0") (codes "ssid"))
get-set_example =
    get-set (parse text) (codes "w0") (codes "ssid") (codes "new 'net'") {g = edited} (codes "w0")
      (codes "ssid") edited_is

bytes-parse_example : bytes (parse text) ≡ with_newline (normal_text text)
bytes-parse_example = bytes-parse text

parse-bytes-set_example : parse (bytes edited) ≡ edited
parse-bytes-set_example =
    parse-bytes-set text (codes "w0") (codes "ssid") (codes "new 'net'") {g = edited} refl refl refl
      edited_is

abbrev some_calls : List EditCall
some_calls =
    delete_call (codes "w0") (codes "ssid")
    ∷ ensure_call (codes "wifi-iface") (codes "w1")
    ∷ set_call (codes "w1") (codes "ssid") (codes "guest")
    ∷ []

set-edit_calls_example :
    set (edit_calls some_calls (parse text)) (codes "w0") (codes "ssid") (codes "home") ≢ crashed
set-edit_calls_example = set-edit_calls text some_calls (codes "w0") (codes "ssid") (codes "home")

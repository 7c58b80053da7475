-- ===== src/Groups/Examples/Planning.antt =====
-- Tests of internal/groups/plan.go and psk.go.
use perch_apd.Base.{
  ℕ, ◌+◌, ◌≤◌, ◌<◌, true, false, none, some, List, [], ◌∷◌, ◌++◌, ◌≡◌, ◌↔◌, ◌⊎◌, refl, bytes_beq,
  codes, arith, length, subst, sym,
}
use perch_apd.Base.Text.{itoa, to_lower, trim_left}
use perch_apd.Groups.Names.{short_name}
use perch_apd.Groups.Desired.{validate, refuse, bridge_empty}
use perch_apd.Groups.Desired.Valid.{IsValid, validate-IsValid}
use perch_apd.Groups.Ledger.{Conversion}
use perch_apd.Groups.Kit.{NameLaws, list_of}
use perch_apd.Groups.Draft.{Draft, untagged_for, is_used, convert, refused}
use perch_apd.Groups.Draft.Untagged.{can_reuse, untagged_for-free, convert-refused}
use perch_apd.Groups.Psk.{parse_psk_line, cut_space}
use perch_apd.Groups.Psk.Line.{IsTrimmed, parse_psk_line-vlanid}
use perch_apd.Groups.Assemble.{plan, empty_plan}
use perch_apd.Groups.Assemble.Owned.{IsAddition, plan-AllOwned}
use perch_apd.Groups.Plan.{Plan}
use perch_apd.Groups.Ledger.{undo}
use perch_apd.Groups.Draft.{Outcome, ok}
use perch_apd.Groups.Names.{is_word, valid_key, valid_mac, valid_ifname}
use perch_apd.Base.{All, any}
use perch_apd.Base.Sort.{sort}
use perch_apd.Groups.Examples.{uci, Section, desired, digest, access_point, bridge, lan, no_ledger}

validate-IsValid_example : (validate desired ≡ none) ↔ IsValid desired
validate-IsValid_example = validate-IsValid desired

abbrev converted : Conversion
converted = record { bridge = codes "br-lan"; untagged_vlan = 1; moved = [] }

abbrev used_ids : List ℕ
used_ids = 1 ∷ 2 ∷ 10 ∷ []

-- The VLAN of the last conversion is taken now.
untagged_for-free_example :
    let v = untagged_for (codes "br-lan") used_ids (some converted) in
    (is_used v used_ids ≡ false)
    × (((c : Conversion) × (some converted ≡ some c)
          × (c.bridge ≡ codes "br-lan")
          × (v ≡ c.untagged_vlan))
        ⊎ ((can_reuse (codes "br-lan") used_ids (some converted) ≡ false)
            × (1 ≤ v)
            × (v ≤ 1 + length used_ids)
            × ((w : ℕ) → 1 ≤ w → w < v → is_used w used_ids ≡ true)))
untagged_for-free_example = untagged_for-free (codes "br-lan") used_ids (some converted)

untagged_test : untagged_for (codes "br-lan") used_ids (some converted) ≡ 3
unfolding untagged_for bytes_beq
untagged_test = refl

abbrev bare_bridge : Section
bare_bridge = record { typ = codes "device"; name = codes "d1"; options = [] }

abbrev no_draft : Draft uci
no_draft = (record { created = []; taken = false }, bare_bridge ∷ [])

bare_refused : convert uci bare_bridge (10 ∷ []) none no_draft ≡ refused (refuse bridge_empty)
unfolding convert list_of untagged_for
bare_refused = refl

none_before : (c : Conversion) → none ≡ some c → c.untagged_vlan ≤ 4094
none_before c h = ground arith

convert-refused_example :
    (list_of uci bare_bridge (codes "ports") ≡ []) × (refuse bridge_empty ≡ refuse bridge_empty)
convert-refused_example =
    convert-refused uci bare_bridge (10 ∷ []) none no_draft (omega arith) none_before bare_refused

phrase_IsTrimmed : IsTrimmed (codes "pass = phrase")
unfolding trim_left cut_space
phrase_IsTrimmed = record { ne_nil = λ e. cc; left = refl; right = refl }

parse_psk_line-vlanid_example :
    parse_psk_line (
      codes "vlanid="
      ++ (codes "10" ++ b' ' ∷ (codes "AA:00:00:00:00:01" ++ b' ' ∷ codes "pass = phrase")))
    ≡ some (record {
      mac = some (to_lower (codes "AA:00:00:00:00:01"));
      key = codes "pass = phrase";
      vlan = codes "10";
    })
parse_psk_line-vlanid_example =
    parse_psk_line-vlanid (codes "10") (codes "AA:00:00:00:00:01") (codes "pass = phrase") refl
      (λ e. cc) refl refl refl phrase_IsTrimmed

abbrev pub sample : Outcome (Plan uci digest)
sample = plan uci digest (access_point ∷ []) (bridge ∷ lan ∷ []) desired [] no_ledger

abbrev pub or_empty : Outcome (Plan uci digest) → Plan uci digest
or_empty (ok p) = p
or_empty (refused r) = empty_plan uci digest (undo uci [] [] no_ledger)

pub sample_ok : sample ≡ ok (or_empty sample)
unfolding plan validate bytes_beq valid_mac valid_ifname list_of sort valid_key itoa
sample_ok = refl

sample_managed : (or_empty sample).managed ≡ codes "w0" ∷ []
unfolding plan validate bytes_beq valid_mac valid_ifname list_of sort valid_key itoa
sample_managed = refl

pub sample_words : All (λ n. any is_word n ≡ true) (or_empty sample).managed
sample_words = subst (All (λ n. any is_word n ≡ true)) (sym sample_managed) (refl, tt)

pub uci_names : NameLaws uci
uci_names = record { name_set = λ s n v. refl; name_section = λ n t o. refl }

plan-AllOwned_example :
    IsAddition uci digest uci_names
      (undo uci (access_point ∷ []) (bridge ∷ lan ∷ []) no_ledger)
      (or_empty sample)
plan-AllOwned_example =
    plan-AllOwned uci digest uci_names (access_point ∷ []) (bridge ∷ lan ∷ []) desired [] no_ledger
      (or_empty sample) sample_ok sample_words

-- Every name of this plan.
pub sample_names :
    (or_empty sample).ledger.owned
    ≡ some (
        codes "perch_bvu"
        ∷ codes "perch_bv10"
        ∷ codes "perch_v10"
        ∷ codes "perch_wv10_w0"
        ∷ codes "perch_ws0"
        ∷ [])
unfolding plan validate bytes_beq valid_mac valid_ifname list_of sort valid_key itoa short_name
sample_names = refl

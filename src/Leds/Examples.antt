-- ===== src/Leds/Examples.antt =====
-- internal/leds/leds.go: locate on a device with one LED, which the boot leaves on by hand.
use perch_apd.Base.{
  ℕ, Bool, true, false, Option, none, some, List, [], ◌∷◌, ◌++◌, ◌≡◌, refl, subst, ◌≤◌, ◌==◌,
  bytes_eq, if◌then◌else◌, Bytes, codes, bytes_beq, arith, beq_self, All, sym, ◌&&◌,
}
use perch_apd.Base.Text.{split}
use perch_apd.Leds.{
  LedState, listed, Sysfs, Calls, Locator, written, torn, new, snapshot, restore_all, start, finish,
  stop, recover_stale,
}
use perch_apd.Leds.Effects.{Laws, HasNames, IsProper, IsBack}
use perch_apd.Leds.Recovered.{Move, starts, finishes, run, recover_stale-stop}
use perch_apd.Leds.Restored.{start-restore_all}

-- The trigger's text and the brightness.
abbrev Lamp : Type 0
Lamp = Bytes × Bytes

abbrev read_lamp : Bytes → Lamp → Option Bytes
read_lamp file (trigger, brightness) =
    if file == codes "trigger"
    then some trigger
    else if file == codes "brightness"
    then some brightness
    else none

abbrev write_lamp : Bytes → Bytes → Lamp → Lamp × Bool
write_lamp file v (trigger, brightness) =
    if file == codes "trigger"
    then ((codes "none [" ++ (v ++ codes "]"), codes "0"), true)
    else if file == codes "brightness"
    then ((trigger, v), true)
    else ((trigger, brightness), false)

abbrev encode : List LedState → Bytes
encode [] = []
encode (s ∷ ss) = s.name ++ (codes "," ++ (s.trigger ++ (codes "," ++ s.brightness)))

abbrev decode : Bytes → Option (List LedState)
decode b = elim (split b',' b) [
  | name ∷ trigger ∷ brightness ∷ [] ↦
      some (record { name = name; trigger = trigger; brightness = brightness; attrs = [] } ∷ [])
  | _ ↦ none
]

abbrev one_led : Sysfs
one_led = record {
  Leds = Lamp;
  entries = λ _. listed (codes "green" ∷ []);
  read = λ _ file d. read_lamp file d;
  files = λ _ _. [];
  write = λ _ file v d. write_lamp file v d;
  encode = encode;
  decode = decode;
}

abbrev lamp : Lamp
lamp = (codes "[none] timer", codes "1")

abbrev lamp_state : LedState
lamp_state = record {
  name = codes "green";
  trigger = codes "none";
  brightness = codes "1";
  attrs = [];
}

abbrev fine : Calls
fine = record { now = 5; persisted = written; removed = true; read_ok = true }

-- The state file's disk is full.
abbrev full : Calls
full = record { now = 4; persisted = torn (codes "gre"); removed = true; read_ok = true }

abbrev located : List Move
located = starts full 10 ∷ starts fine 10 ∷ starts fine 20 ∷ finishes fine 1 ∷ []

located_back :
    decode (encode (run one_led located (new one_led none lamp)).saved)
    ≡ some (run one_led located (new one_led none lamp)).saved
unfolding start finish split bytes_beq
located_back = refl

-- The lamp is as it was when the blink is over.
lamp_restored :
    restore_all one_led (lamp_state ∷ []) (codes "none [timer]", codes "0")
    ≡ (codes "none [none]", codes "1")
unfolding restore_all bytes_beq
lamp_restored = refl

-- Two LEDs, whose files hold what was written last.
abbrev Store : Type 0
Store = Bytes → Bytes → Bytes

abbrev store_leds : Sysfs
store_leds = record {
  Leds = Store;
  entries = λ _. listed (codes "green" ∷ codes "red" ∷ []);
  read = λ led file d.
      if file == codes "trigger"
      then some (b'[' ∷ (d led file ++ b']' ∷ []))
      else some (d led file);
  files = λ _ _. [];
  write = λ led file v d. (λ l f. if l == led && f == file then v else d l f, true);
  encode = encode;
  decode = decode;
}

abbrev content_of : Bytes → Bytes → Store → Bytes
content_of led file d = d led file

not_brightness : (codes "trigger" == codes "brightness") ≡ false
unfolding bytes_beq
not_brightness = refl

store_Laws : Laws store_leds content_of
store_Laws = record {
  written = λ led f v d. ground (arith, beq_self led, beq_self f);
  other_led = λ led other f g v d apart. ground (arith, bytes_eq.beq_iff other led, beq_self led);
  other_file = λ led f g v d apart t b. ground (arith, bytes_eq.beq_iff f g, beq_self f);
  stays_none = λ led v d off. ground (arith, not_brightness);
}

abbrev by_hand : Store
by_hand led file =
    if file == codes "trigger"
    then codes "none"
    else if led == codes "green" && file == codes "brightness"
    then codes "1"
    else codes "0"

abbrev green : LedState
green = record { name = codes "green"; trigger = codes "none"; brightness = codes "1"; attrs = [] }

abbrev red : LedState
red = record { name = codes "red"; trigger = codes "none"; brightness = codes "0"; attrs = [] }

store_shot : snapshot store_leds by_hand ≡ some (green ∷ red ∷ [])
unfolding snapshot bytes_beq
store_shot = refl

store_starts : (start store_leds true fine 10 (new store_leds none by_hand)).0.active ≡ true
unfolding start bytes_beq
store_starts = refl

store_names : HasNames (green ∷ red ∷ [])
unfolding bytes_beq
store_names = (refl, (refl, tt))

bare_IsProper : (s : LedState) → s.attrs ≡ [] → IsProper store_leds s
bare_IsProper s e =
    let here : IsProper store_leds (record s { attrs = [] }) = record {
      apart = tt;
      no_trigger = refl;
      no_brightness = refl;
    } in
    subst (λ l. IsProper store_leds (record s { attrs = l })) (sym e) here

-- The state file of the two, which come back from it.
abbrev two_states : List LedState
two_states = green ∷ red ∷ []

abbrev two_leds : Sysfs
two_leds = record store_leds {
  encode = λ _. codes "two";
  decode = λ b. if b == codes "two" then some two_states else none;
}

two_Laws : Laws two_leds content_of
two_Laws = record {
  written = store_Laws.written;
  other_led = store_Laws.other_led;
  other_file = store_Laws.other_file;
  stays_none = store_Laws.stays_none;
}

abbrev lit_moves : List Move
lit_moves = starts fine 10 ∷ starts fine 20 ∷ finishes fine 1 ∷ []

abbrev lit : Locator two_leds
lit = run two_leds lit_moves (new two_leds none by_hand)

lit_saved : (lit.saved ≡ two_states) × (lit.active ≡ true)
unfolding start finish bytes_beq
lit_saved = (refl, refl)

two_is_whole : (b : Bytes) → written ≡ torn b → two_leds.decode b ≡ none
two_is_whole b e = absurd (ground arith)

lit_back : two_leds.decode (two_leds.encode lit.saved) ≡ some lit.saved
unfolding start finish bytes_beq
lit_back = refl

two_IsProper : (s : LedState) → s.attrs ≡ [] → IsProper two_leds s
two_IsProper s e =
    let p = bare_IsProper s e in
    record { apart = p.apart; no_trigger = p.no_trigger; no_brightness = p.no_brightness }

recover_stale-stop_example :
    let r = (recover_stale two_leds true fine (new two_leds lit.file lit.leds)).0 in
    (r.leds ≡ (stop two_leds true fine lit).leds)
    × (if lit.active
        then All (λ s. IsBack two_leds content_of two_Laws s r.leds) lit.saved
        else r.leds ≡ lit.leds)
    × (r.active ≡ false)
    × ((stop two_leds true fine lit).active ≡ false)
    × (r.file ≡ none)
recover_stale-stop_example =
    recover_stale-stop two_leds content_of two_Laws lit_moves by_hand fine fine
      ((refl, two_is_whole), ((refl, two_is_whole), (refl, tt))) refl refl lit_back
      (subst HasNames (sym lit_saved.0) store_names)
      (subst (All (IsProper two_leds)) (sym lit_saved.0)
        (two_IsProper green refl, (two_IsProper red refl, tt)))

start-restore_all_example :
    let l =
      run store_leds
        (starts fine 20 ∷ finishes fine 0 ∷ [])
        (start store_leds true fine 10 (new store_leds none by_hand)).0 in
    (l.active ≡ true)
    × (l.timer ≡ some l.gen)
    × ((g : ℕ) → g ≤ 0 → finish store_leds true fine g l ≡ (l, false))
    × All
        (λ s.
          IsBack store_leds content_of store_Laws s (finish store_leds true fine l.gen l).0.leds)
        (green ∷ red ∷ [])
    × ((finish store_leds true fine l.gen l).1 ≡ true)
    × ((finish store_leds true fine l.gen l).0.active ≡ false)
start-restore_all_example =
    start-restore_all store_leds content_of store_Laws fine fine 10 (new store_leds none by_hand)
      (green ∷ red ∷ []) (starts fine 20 ∷ finishes fine 0 ∷ []) refl store_shot store_names
      (bare_IsProper green refl, (bare_IsProper red refl, tt)) store_starts (tt, (ground arith, tt))

-- ===== src/Leds.antt =====
-- internal/leds/leds.go: locate, which blinks every LED and puts each one back. The LEDs' files in
-- /sys/class/leds, and JSON, are parameters; which of the state file's calls succeed is an input. The
-- generation is a number that does not wrap.
pub mod Effects
pub mod Recovered
pub mod Restored
mod Examples
use perch_apd.Base.{
  ℕ, ◌+◌, ◌/◌, ◌%◌, Bool, true, false, not, ◌&&◌, ◌||◌, Option, none, some, List, [], ◌∷◌, ◌++◌,
  ◌==◌, nat_eq, bytes_eq, if◌then◌else◌, Bytes, codes, any, length,
}
use perch_apd.Base.Text.{cut, trim_space}
use perch_apd.Base.Sort.{sort, bytes_leb}

-- `ledState`.
pub record LedState : Type 0 where
  pub name : Bytes
  pub trigger : Bytes
  pub brightness : Bytes
  pub attrs : List (Bytes × Bytes)

-- An entry of a directory: its `Type().IsRegular()`, and the permissions if `Info` gives them.
pub record DirFile : Type 0 where
  pub name : Bytes
  pub is_regular : Bool
  pub perm : Option ℕ

-- What `os.ReadDir` gives for /sys/class/leds.
pub data Entries : Type 0 where
  missing unreadable : Entries
  listed : List Bytes → Entries

-- The LEDs' files: the directory, a file of an LED, an LED's own directory, and a write, with whether it
-- succeeds. And `encoding/json` on the states.
pub record Sysfs : Type 1 where
  pub Leds : Type 0
  pub entries : Leds → Entries
  pub read : Bytes → Bytes → Leds → Option Bytes
  pub files : Bytes → Leds → List DirFile
  pub write : Bytes → Bytes → Bytes → Leds → Leds × Bool
  pub encode : List LedState → Bytes
  pub decode : Bytes → Option (List LedState)

-- How the write of the state file ends: it is not opened, part of it is written, or all.
pub data Persisted : Type 0 where
  unopened : Persisted
  torn : Bytes → Persisted
  written : Persisted

-- The clock and the calls on the state file.
pub record Calls : Type 0 where
  pub now : ℕ
  pub persisted : Persisted
  pub removed : Bool
  pub read_ok : Bool

pub data StartError : Type 0 where
  no_leds snapshot_failed save_failed : StartError

-- What `Start` answers: an error, or how many LEDs blink and until when.
pub data Answer : Type 0 where
  refused : StartError → Answer
  blinking : ℕ → ℕ → Answer

-- `baseFiles`.
abbrev base_files : List Bytes
base_files =
    codes "brightness"
    ∷ codes "max_brightness"
    ∷ codes "trigger"
    ∷ codes "uevent"
    ∷ codes "brightness_hw_changed"
    ∷ codes "multi_index"
    ∷ codes "multi_intensity"
    ∷ []

abbrev blink_ms : Bytes
blink_ms = codes "200"

-- `currentTrigger`.
unfoldable pub current_trigger : Bytes → Option Bytes
unfolding cut
current_trigger list = elim (cut b'[' list) [
  | none ↦ none
  | some (_, rest) ↦ elim (cut b']' rest) [
    | none ↦ none
    | some (word, _) ↦ if word == [] then none else some word
  ]
]

is_writable : Option ℕ → Bool
is_writable none = false
is_writable (some perm) = perm / 128 % 2 == 1

-- Whether a file of an LED is a setting of its trigger.
is_setting : DirFile → Bool
unfolding is_writable
is_setting f = not (any (λ n. n == f.name) base_files || not f.is_regular) && is_writable f.perm

-- The order in which settings are written.
abbrev by_name : Bytes × Bytes → Bytes × Bytes → Bool
by_name a b =
    if a.0 == codes "device_name"
    then true
    else if b.0 == codes "device_name"
    then false
    else bytes_leb a.0 b.0

abbrev with_led : Option LedState → List LedState → List LedState
with_led none ss = ss
with_led (some s) ss = s ∷ ss

module _ (kit : Sysfs) where
  open kit use {Leds}

  -- `Locator`, with the content of its state file. A timer is known by the generation that it ends.
  pub record Locator : Type 0 where
    pub saved : List LedState
    pub timer : Option ℕ
    pub active : Bool
    pub ends_at : Option ℕ
    pub gen : ℕ
    pub file : Option Bytes
    pub leds : Leds

  -- `New`, over what the device holds.
  abbrev pub new : Option Bytes → Leds → Locator
  new file leds = record {
    saved = [];
    timer = none;
    active = false;
    ends_at = none;
    gen = 0;
    file = file;
    leds = leds;
  }

  -- `Count`.
  unfoldable pub count : Leds → ℕ
  count d = elim (kit.entries d) [ listed names ↦ length names | _ ↦ 0 ]

  read_attrs : Bytes → List DirFile → Leds → List (Bytes × Bytes)
  unfolding is_setting
  read_attrs led [] d = []
  read_attrs led (f ∷ fs) d =
      let rest = read_attrs led fs d in
      if is_setting f
      then elim (kit.read led f.name d) [ none ↦ rest | some v ↦ (f.name, trim_space v) ∷ rest ]
      else rest

  -- The state of one LED.
  led_state : Bytes → Leds → Option LedState
  unfolding current_trigger read_attrs trim_space
  led_state led d = elim (kit.read led (codes "trigger") d) [
    | none ↦ none
    | some text ↦ some (record {
      name = led;
      trigger = elim (current_trigger text) [ none ↦ codes "none" | some word ↦ word ];
      brightness = elim (kit.read led (codes "brightness") d) [ none ↦ [] | some b ↦ trim_space b ];
      attrs = read_attrs led (kit.files led d) d;
    })
  ]

  led_states : List Bytes → Leds → List LedState
  unfolding led_state
  led_states [] d = []
  led_states (led ∷ leds) d = with_led (led_state led d) (led_states leds d)

  -- `snapshot`.
  unfoldable pub snapshot : Leds → Option (List LedState)
  unfolding led_states
  snapshot d = elim (kit.entries d) [
    | missing ↦ some []
    | unreadable ↦ none
    | listed names ↦ some (led_states names d)
  ]

  set_delays : Bytes → Leds → Leds
  set_delays led d =
      (kit.write led (codes "delay_off") blink_ms (kit.write led (codes "delay_on") blink_ms d).0).0

  -- `blink`.
  blink : Bytes → Leds → Leds × Bool
  unfolding set_delays
  blink led d =
      let (d', fine) = kit.write led (codes "trigger") (codes "timer") d in
      if fine then (set_delays led d', true) else (d', false)

  write_attrs : Bytes → List (Bytes × Bytes) → Leds → Leds
  write_attrs led [] d = d
  write_attrs led ((name, v) ∷ attrs) d = write_attrs led attrs (kit.write led name v d).0

  -- `restoreOne`.
  unfoldable pub restore_one : LedState → Leds → Leds
  unfolding write_attrs sort
  restore_one s d =
      let d' =
        write_attrs s.name (sort by_name s.attrs)
          (kit.write s.name (codes "trigger") s.trigger d).0 in
      if s.trigger == codes "none" && not (s.brightness == [])
      then (kit.write s.name (codes "brightness") s.brightness d').0
      else d'

  unfoldable pub restore_all : List LedState → Leds → Leds
  unfolding restore_one
  restore_all [] d = d
  restore_all (s ∷ ss) d = restore_all ss (restore_one s d)

  -- The loop that blinks, and the LEDs that do.
  blink_all : List LedState → Leds → Leds × List LedState
  unfolding blink restore_one
  blink_all [] d = (d, [])
  blink_all (s ∷ ss) d =
      let (d', fine) = blink s.name d in
      let more = blink_all ss d' in
      let less = blink_all ss (restore_one s d') in if fine then (more.0, s ∷ more.1) else less

  -- `persist` and `clearPersisted`; `keeps` says that there is a state file.
  persist : Bool → Calls → List LedState → Locator → Locator × Bool
  persist false v states l = (l, true)
  persist true v states l = elim v.persisted [
    | unopened ↦ (l, false)
    | torn b ↦ (record l { file = some b }, false)
    | written ↦ (record l { file = some (kit.encode states) }, true)
  ]

  pub clear_persisted : Bool → Calls → Locator → Locator
  clear_persisted keeps v l = if keeps && v.removed then record l { file = none } else l

  -- Behind the loop that blinks, with the LEDs that do.
  settle : Bool → Calls → List LedState → Locator → List LedState → Locator × Option StartError
  unfolding clear_persisted
  settle keeps v states l [] = (clear_persisted keeps v l, some no_leds)
  settle keeps v states l (_ ∷ _) = (record l { saved = states; active = true }, none)

  -- `Start` once the states are persisted.
  try_blink : Bool → Calls → List LedState → Locator → Locator × Option StartError
  unfolding blink_all settle
  try_blink keeps v states l =
      let (d, lit) = blink_all states l.leds in settle keeps v states (record l { leds = d }) lit

  save_and_blink : Bool → Calls → List LedState → Locator → Locator × Option StartError
  unfolding persist try_blink
  save_and_blink keeps v [] l = (l, some no_leds)
  save_and_blink keeps v (s ∷ ss) l =
      let (l', fine) = persist keeps v (s ∷ ss) l in
      let tried = try_blink keeps v (s ∷ ss) l' in if fine then tried else (l', some save_failed)

  -- What `Start` does first where nothing blinks.
  unfoldable pub begin : Bool → Calls → Locator → Locator × Option StartError
  unfolding snapshot save_and_blink
  begin keeps v l = elim (snapshot l.leds) [
    | none ↦ (l, some snapshot_failed)
    | some states ↦ save_and_blink keeps v states l
  ]

  -- And then: the timer, anew.
  unfoldable pub arm : Calls → ℕ → Locator → Locator × Answer
  arm v d l = (
    record l { gen = l.gen + 1; ends_at = some (v.now + d); timer = some (l.gen + 1) },
    blinking (length l.saved) (v.now + d),
  )

  unfoldable pub arm_begun : Calls → ℕ → Locator × Option StartError → Locator × Answer
  unfolding arm
  arm_begun v d (l, none) = arm v d l
  arm_begun v d (l, some e) = (l, refused e)

  -- `Start`.
  unfoldable pub start : Bool → Calls → ℕ → Locator → Locator × Answer
  unfolding begin arm arm_begun
  start keeps v d l = if l.active then arm v d l else arm_begun v d (begin keeps v l)

  -- The end of the blink.
  unfoldable pub finish_now : Bool → Calls → Locator → Locator × Bool
  unfolding restore_all clear_persisted
  finish_now keeps v l = (
    clear_persisted keeps v (record l {
      saved = [];
      timer = none;
      active = false;
      ends_at = none;
      leds = restore_all l.saved l.leds;
    }),
    true,
  )

  -- `finish`, with whether `OnEnd` is called.
  unfoldable pub finish : Bool → Calls → ℕ → Locator → Locator × Bool
  unfolding finish_now
  finish keeps v g l = if not l.active || not (g == l.gen) then (l, false) else finish_now keeps v l

  -- `Stop`, where no other call comes between its two locks.
  unfoldable pub stop : Bool → Calls → Locator → Locator
  unfolding finish
  stop keeps v l = (finish keeps v l.gen l).0

  -- `RecoverStale`: whether it restored, or none for an error.
  unfoldable pub recover_stale : Bool → Calls → Locator → Locator × Option Bool
  unfolding clear_persisted restore_all
  recover_stale false v l = (l, some false)
  recover_stale true v l = elim l.file [
    | none ↦ (l, some false)
    | some b ↦
        if v.read_ok
        then elim (kit.decode b) [
          | none ↦ (clear_persisted true v l, none)
          | some states ↦
              (clear_persisted true v (record l { leds = restore_all states l.leds }), some true)
        ]
        else (l, none)
  ]

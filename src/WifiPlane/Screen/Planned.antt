-- ===== src/WifiPlane/Screen/Planned.antt =====
-- internal/wifiplane/screen.go on what internal/groups/plan.go creates.
use perch_apd.Base.{
  Bool, true, Option, none, some, List, [], ◌∷◌, ◌≡◌, ◌≢◌, ap, sym, ◌∙◌, ◌&&◌, ◌||◌, false, subst,
  arith, ◌==◌, bytes_eq, Bytes, codes, any, All, Bool-cases, inl, inr, beq_self,
}
use perch_apd.Base.Maps.{is_in_set}
use perch_apd.Groups.Names.{owned_name, is_word}
use perch_apd.Groups.Kit.{Kit, NameLaws}
use perch_apd.Groups.Desired.{Desired}
use perch_apd.Groups.Ledger.{Ledger}
use perch_apd.Groups.Plan.{Plan}
use perch_apd.Groups.Draft.{ok}
use perch_apd.Groups.Draft.Owned.{AllOwned}
use perch_apd.Groups.Assemble.{plan}
use perch_apd.Groups.Assemble.Owned.{plan-AllOwned}
use perch_apd.WifiPlane.Guard.{Status}
use perch_apd.WifiPlane.Screen.{
  access_write, Op, ApplyScreen, is_shared, groups_name, owner, screen_apply, params_of,
}
use perch_apd.WifiPlane.Screen.Refused.{IsFree, IsFreeOp, IsFreeApply, screen_apply-MayPass}

owned_of_member :
    (n : Bytes) (names : List Bytes)
    → AllOwned names
    → is_in_set n names ≡ true
    → owned_name n ≡ true
owned_of_member n [] h i = ground arith
owned_of_member n (m ∷ names) h i = elim (Bool-cases (m == n)) [
  | inl same ↦ ground (arith, ap owned_name ((bytes_eq.beq_iff m n).0 same))
  | inr apart ↦ owned_of_member n names h.1 (ground arith)
]

owned_name-groups_name :
    (set : List Bytes) (n : Bytes) → owned_name n ≡ true → groups_name set n ≡ true
unfolding groups_name owned_name
owned_name-groups_name set [] h = cc
owned_name-groups_name set (c ∷ n) h = ground (arith, bytes_eq.beq_iff (c ∷ n) [])

-- Whether the apply names this section of this config: in an operation, as its section, its new name or
-- one of its sections, or in its ledger.
abbrev pub op_names : Bytes → Bytes → Op → Bool
op_names config n op =
    op.config == config && (op.section == n || (op.rename_to == n || is_in_set n op.sections))

abbrev pub pair_names : Bytes → Bytes → Bytes × Bytes → Bool
pair_names config n e = e.0 == config && e.1 == n

abbrev pub apply_names : Bytes → Bytes → ApplyScreen → Bool
apply_names config n a = any (op_names config n) a.ops || any (pair_names config n) a.ledger

any-All {ℓ κ} :
    {A : Type ℓ} (p : A → Bool) (P : A → Type κ) (xs : List A)
    → any p xs ≡ true
    → All P xs
    → (x : A) × (p x ≡ true) × P x
any-All p P [] h a = absurd (ground arith)
any-All p P (x ∷ xs) h a = elim (Bool-cases (p x)) [
  | inl here ↦ (x, here, a.0)
  | inr other ↦ any-All p P xs (ground arith) a.1
]

IsFree-same :
    (set : List Bytes) (config c n m : Bytes)
    → (c == config) ≡ true
    → (m == n) ≡ true
    → IsFree set c m
    → IsFree set config n
IsFree-same set config c n m same at h =
    subst (λ x. IsFree set x n) ((bytes_eq.beq_iff c config).0 same)
      (subst (IsFree set c) ((bytes_eq.beq_iff m n).0 at) h)

in_set-All {κ} :
    (P : Bytes → Type κ) (n : Bytes) (ms : List Bytes) → is_in_set n ms ≡ true → All P ms → P n
in_set-All P n [] h a = absurd (ground arith)
in_set-All P n (m ∷ ms) h a = elim (Bool-cases (m == n)) [
  | inl here ↦ subst P ((bytes_eq.beq_iff m n).0 here) a.0
  | inr other ↦ in_set-All P n ms (ground arith) a.1
]

in_sections :
    (config n : Bytes) (op : Op)
    → op_names config n op ≡ true
    → (op.section == n) ≡ false
    → (op.rename_to == n) ≡ false
    → is_in_set n op.sections ≡ true
in_sections config n op h away apart = ground arith

op_names-IsFree :
    (set : List Bytes) (config n : Bytes) (op : Op)
    → op_names config n op ≡ true
    → IsFreeOp set op
    → IsFree set config n
op_names-IsFree set config n op h f =
    let same : (op.config == config) ≡ true = ground arith in
    elim (Bool-cases (op.section == n)) [
      | inl at ↦ IsFree-same set config op.config n op.section same at f.0
      | inr away ↦ elim (Bool-cases (op.rename_to == n)) [
        | inl at ↦ IsFree-same set config op.config n op.rename_to same at f.1
        | inr apart ↦
            let member : is_in_set n op.sections ≡ true = in_sections config n op h away apart in
            IsFree-same set config op.config n n same (beq_self n)
              (in_set-All (IsFree set op.config) n op.sections member f.2)
      ]
    ]

apply_names-IsFree :
    (set : List Bytes) (config n : Bytes) (a : ApplyScreen)
    → apply_names config n a ≡ true
    → IsFreeApply set a
    → IsFree set config n
apply_names-IsFree set config n a h f = elim (Bool-cases (any (op_names config n) a.ops)) [
  | inl in_op ↦
      let (op, at, h) = any-All (op_names config n) (IsFreeOp set) a.ops in_op f.0 in
      op_names-IsFree set config n op at h
  | inr away ↦
      let (e, at, h) =
        any-All (pair_names config n) (λ (e : Bytes × Bytes). IsFree set e.0 e.1) a.ledger
          (ground arith) f.1 in
      IsFree-same set config e.0 n e.1 (ground arith) (ground arith) h
]

-- What the plane does with a name that the ledger of a plan of the groups lists, where each managed
-- interface's name has a letter, a digit or an underscore; these are the names of the sections that the
-- plan added, and of a conversion's that stays. In `wireless` and in `network` a section of that name is
-- marked as the groups' in reads. An apply that can be read and that names it, as the section, the new
-- name or one of the sections of an operation or in its ledger, is refused where the configured access is
-- `write`. Both hold whichever sections the groups' engine says it owns.
pub screen_apply-plan :
    (k : Kit) (digest : Bytes → Bytes) (laws : NameLaws k) (w n : List k.Section) (d : Desired)
    (detected : Bytes) (prev : Ledger) (p : Plan k digest) (names : List Bytes)
    (created config : Bytes) (signed : Bytes → Option Bytes) (decode : Bytes → Option ApplyScreen)
    (set : List Bytes) (openwrt : Bool) (guard : Status) (raw : Bytes) (a : ApplyScreen)
    → plan k digest w n d detected prev ≡ ok p
    → All (λ m. any is_word m ≡ true) p.managed
    → p.ledger.owned ≡ some names
    → is_in_set created names ≡ true
    → is_shared config ≡ true
    → decode (params_of raw (signed raw)) ≡ some a
    → apply_names config created a ≡ true
    → (owner set config created ≡ codes "groups")
      × (screen_apply signed decode access_write set openwrt guard raw ≢ none)
unfolding owner
screen_apply-plan k digest laws w n d detected prev p names created config signed decode set openwrt
      guard raw a planned words listed member shared read named =
    let adds = plan-AllOwned k digest laws w n d detected prev p planned words in
    let all_owned : AllOwned names =
      subst AllOwned (some-eq (sym adds.listed ∙ listed)) adds.all_owned in
    let own = owned_of_member created names all_owned member in
    let theirs = owned_name-groups_name set created own in
    (
      ground arith,
      λ passed.
          let here : IsFree set config created =
            apply_names-IsFree set config created a named
              ((screen_apply-MayPass signed decode set openwrt guard raw a read).0 passed).1 in
          ground (arith, here),
    )
  where
    some-eq : {x y : List Bytes} → some x ≡ some y → x ≡ y
    some-eq e = ground arith

-- ===== src/Groups/Assemble/Owned.antt =====
-- internal/groups/plan.go: what a plan records as its own.
use perch_apd.Base.{
  ℕ, true, false, Option, none, some, List, [], ◌∷◌, ◌≡◌, subst, Bytes, codes, map, if◌then◌else◌,
  any, length, leb, ◌==◌, nat_eq, bytes_eq, All, All-append, ap, sym, ◌∙◌, ◌++◌, refl, append-nil,
  if-both, option-both,
}
use perch_apd.Base.Sort.{sort}
use perch_apd.Groups.Names.{owned_name, is_word, untagged_name}
use perch_apd.Groups.Names.Owned.{owned_name-numbered}
use perch_apd.Groups.Kit.{Kit, NameLaws, str, find, update}
use perch_apd.Groups.Desired.{
  Desired, validate, refuse, untagged_vlan_conflict, conversion_conflict, no_managed_iface,
  trunk_unknown, name_taken,
}
use perch_apd.Groups.Ledger.{Conversion, Ledger, Undone, undo, bridge_vlans}
use perch_apd.Groups.Draft.{Draft, Outcome, ok, refused, ◌>>=◌, convert, is_used}
use perch_apd.Groups.Draft.Owned.{names, AllOwned, OnOk, IsOwnedDraft, convert-IsOwnedDraft}
use perch_apd.Groups.Plan.{Iface, Plan, vid_of, trunk_port, managed_ifaces, bridge_of}
use perch_apd.Groups.Plan.Owned.{
  add_bridge_vlans-IsOwnedDraft, add_bridge_interfaces-IsOwnedDraft, add_port_vlans-IsOwnedDraft,
}
use perch_apd.Groups.Assemble.{
  empty_plan, dynamic_step, owned_names, Carried, prepare, carry, set_dynamic, add_wifi_vlans,
  add_stations, finish_plan, vlan_plan, plan,
}
use perch_apd.Groups.Assemble.Wireless.{add_wifi_vlans-IsOwnedDraft, add_stations-IsOwnedStations}

pub OnOk->>= {ℓ κ μ ν} :
    {A : Type ℓ} {B : Type κ} (P : A → Type μ) (Q : B → Type ν) (o : Outcome A) (f : A → Outcome B)
    → OnOk P o
    → ((a : A) → P a → OnOk Q (f a))
    → OnOk Q (o >>= f)
OnOk->>= P Q (ok a) f p q = q a p
OnOk->>= P Q (refused r) f p q = tt

module _ (k : Kit) (digest : Bytes → Bytes) (laws : NameLaws k) (base before : List Bytes) where
  open k use {Section, Value, string}

  prepare-IsOwnedDraft :
      (bridge : Section) (named : Bytes) (vids : List ℕ) (kept prev : Option Conversion)
      (d : Draft k)
      → IsOwnedDraft k base before d
      → OnOk
          (λ (r : Draft k × Option Conversion). IsOwnedDraft k base before r.0)
          (prepare k digest bridge named vids kept prev d)
  unfolding prepare
  prepare-IsOwnedDraft bridge named vids (some c) prev (p, n) h =
      let P : Outcome (Draft k × Option Conversion) → Type 0 =
        OnOk (λ (r : Draft k × Option Conversion). IsOwnedDraft k base before r.0) in
      let same : Outcome (Draft k × Option Conversion) = ok ((p, n), some c) in
      if-both P _ _ (c.bridge == named)
        (if-both P (refused (refuse untagged_vlan_conflict)) same (is_used c.untagged_vlan vids) tt
          h)
        (if-both P (refused (refuse conversion_conflict)) same
          (length (bridge_vlans k named n) == 0) tt h)
  prepare-IsOwnedDraft bridge named vids none prev (p, n) h =
      let P : Outcome (Draft k × Option Conversion) → Type 0 =
        OnOk (λ (r : Draft k × Option Conversion). IsOwnedDraft k base before r.0) in
      if-both P (convert k bridge vids prev (p, n) >>= λ r. ok (r.0, some r.1)) (ok ((p, n), none))
        (length (bridge_vlans k named n) == 0)
        (OnOk->>= (λ (r : Draft k × Conversion). IsOwnedDraft k base before r.0)
          (λ (r : Draft k × Option Conversion). IsOwnedDraft k base before r.0)
          (convert k bridge vids prev (p, n)) (λ r. ok (r.0, some r.1))
          (convert-IsOwnedDraft k laws base before bridge vids prev (p, n) h) (λ a q. q))
        h

  carry-IsOwnedDraft :
      (port : Bytes) (vids : List ℕ) (kept prev : Option Conversion) (bridge : Option Section)
      (d : Draft k)
      → IsOwnedDraft k base before d
      → OnOk
          (λ (c : Carried k digest). IsOwnedDraft k base before c.draft)
          (carry k digest port vids kept prev bridge d)
  unfolding carry
  carry-IsOwnedDraft port vids kept prev none d h =
      add_port_vlans-IsOwnedDraft k digest laws base before port vids d h
  carry-IsOwnedDraft port vids kept prev (some bridge) d h =
      let named = str k bridge (codes "name") in
      OnOk->>= (λ (r : Draft k × Option Conversion). IsOwnedDraft k base before r.0)
        (λ (c : Carried k digest). IsOwnedDraft k base before c.draft)
        (prepare k digest bridge named vids kept prev d) _
        (prepare-IsOwnedDraft bridge named vids kept prev d h)
        (λ r q.
          add_bridge_interfaces-IsOwnedDraft k digest laws base before named vids _
            (add_bridge_vlans-IsOwnedDraft k digest laws base before named port vids r.0 [] q))

module _ (k : Kit) (digest : Bytes → Bytes) (laws : NameLaws k) where
  open k use {Section, Value, string}

  update-names :
      (n : Bytes) (f : Section → Section) (ss : List Section)
      → ((s : Section) → k.name (f s) ≡ k.name s)
      → names k (update k n f ss) ≡ names k ss
  unfolding update
  update-names n f [] same = refl
  update-names n f (s ∷ ss) same =
      if-both (λ l. names k l ≡ names k (s ∷ ss)) (f s ∷ ss) (s ∷ update k n f ss) (k.has_name s n)
        (ap (λ m. m ∷ names k ss) (same s)) (ap (λ l. k.name s ∷ l) (update-names n f ss same))

  dynamic_step-names :
      (m : Iface) (r : List Section × List (Bytes × Bytes))
      → names k (dynamic_step k digest m r).0 ≡ names k r.0
  unfolding dynamic_step
  dynamic_step-names m (w, was) =
      option-both (λ (r : List Section × List (Bytes × Bytes)). names k r.0 ≡ names k w) (w, was) _
        (find k m.name w) refl
        (λ s.
          if-both (λ (r : List Section × List (Bytes × Bytes)). names k r.0 ≡ names k w) (w, was) _
            (str k s (codes "dynamic_vlan") == codes "1") refl
            (update-names m.name (λ s. k.set s (codes "dynamic_vlan") (string (codes "1"))) w
              (λ s. laws.name_set s (codes "dynamic_vlan") (string (codes "1")))))

  set_dynamic-names :
      (ms : List Iface) (r : List Section × List (Bytes × Bytes))
      → names k (set_dynamic k digest ms r).0 ≡ names k r.0
  unfolding set_dynamic
  set_dynamic-names [] r = refl
  set_dynamic-names (m ∷ ms) r =
      set_dynamic-names ms (dynamic_step k digest m r) ∙ dynamic_step-names m r

  owned_names-AllOwned :
      (created : List Bytes) (kept : Option Conversion)
      → AllOwned created
      → AllOwned (owned_names created kept)
  unfolding owned_names
  owned_names-AllOwned created none h = h
  owned_names-AllOwned created (some c) h =
      All-append (λ n. owned_name n ≡ true) created (untagged_name ∷ [])
        (h, ((owned_name-numbered 0).5, tt))

  -- What the plan adds to what `undo` left, by name, and what its ledger lists: exactly that, and the
  -- section of a conversion that stays.
  pub record IsAddition (u : Undone k) (p : Plan k digest) : Type 0 where
    pub network : List Section
    pub wireless : List Section
    pub network_added : List Bytes
    pub wireless_added : List Bytes
    pub network_is : p.network ≡ k.reindex network
    pub wireless_is : p.wireless ≡ k.reindex wireless
    pub network_names : names k network ≡ names k u.network ++ network_added
    pub wireless_names : names k wireless ≡ names k u.wireless ++ wireless_added
    pub listed : p.ledger.owned ≡ some (owned_names (network_added ++ wireless_added) u.kept)
    pub all_owned : AllOwned (owned_names (network_added ++ wireless_added) u.kept)

  abbrev AddsIfNamed : Undone k → Plan k digest → Type 0
  AddsIfNamed u p = All (λ n. any is_word n ≡ true) p.managed → IsAddition u p

  finish_plan-AddsIfNamed :
      (d : Desired) (vids : List ℕ) (managed : List Iface) (port : Bytes) (u : Undone k)
      (c : Carried k digest)
      → IsOwnedDraft k (names k u.network) [] c.draft
      → OnOk (AddsIfNamed u) (finish_plan k digest d vids managed port u c)
  unfolding finish_plan
  finish_plan-AddsIfNamed d vids managed port u c h =
      let w = set_dynamic k digest managed (u.wireless, []) in
      let vlans : Draft k = add_wifi_vlans k digest managed vids (c.draft.0, w.0) in
      let st =
        add_stations k digest d.stations managed
          (record { draft = vlans; idx = 0; issues = []; binding_keys = [] }) in
      if-both (OnOk (AddsIfNamed u)) (refused (refuse name_taken)) _ st.draft.0.taken tt (λ words.
        let begun : IsOwnedDraft k (names k u.wireless) c.draft.0.created (c.draft.0, w.0) =
          record {
            owned = h.owned;
            added = [];
            created = sym (append-nil c.draft.0.created);
            named =
                set_dynamic-names managed (u.wireless, []) ∙ sym (append-nil (names k u.wireless));
          } in
        let built =
          add_stations-IsOwnedStations k digest laws (names k u.wireless) c.draft.0.created
            d.stations managed _
            (add_wifi_vlans-IsOwnedDraft k digest laws (names k u.wireless) c.draft.0.created
              managed vids (c.draft.0, w.0) (named_all managed words) begun) in
        let all_created : st.draft.0.created ≡ h.added ++ built.added =
          built.created ∙ ap (λ l. l ++ built.added) h.created in
        record {
          network = c.draft.1;
          wireless = st.draft.1;
          network_added = h.added;
          wireless_added = built.added;
          network_is = refl;
          wireless_is = refl;
          network_names = h.named;
          wireless_names = built.named;
          listed = ap (λ l. some (owned_names l u.kept)) all_created;
          all_owned =
              owned_names-AllOwned (h.added ++ built.added) u.kept
                (subst AllOwned all_created built.owned);
        })
    where
      named_all :
          (ms : List Iface)
          → All (λ n. any is_word n ≡ true) (map (λ (m : Iface). m.name) ms)
          → All (λ (m : Iface). any is_word m.name ≡ true) ms
      named_all [] h = tt
      named_all (m ∷ ms) h = (h.0, named_all ms h.1)

  vlan_plan-AddsIfNamed :
      (d : Desired) (detected : Bytes) (prev : Ledger) (u : Undone k)
      → OnOk (AddsIfNamed u) (vlan_plan k digest d detected prev u)
  unfolding vlan_plan
  vlan_plan-AddsIfNamed d detected prev u =
      let managed = managed_ifaces k digest d.ssids u.wireless in
      let port = trunk_port d.trunk detected in
      let vids = sort leb (map vid_of d.vlans) in
      let bridge = bridge_of k digest port u.network in
      let start : Draft k = (record { created = []; taken = false }, u.network) in
      let carried = carry k digest port vids u.kept prev.converted bridge start in
      let begun : IsOwnedDraft k (names k u.network) [] start = record {
        owned = tt;
        added = [];
        created = refl;
        named = sym (append-nil (names k u.network));
      } in
      if-both (OnOk (AddsIfNamed u)) (refused (refuse no_managed_iface)) _ (length managed == 0) tt
        (if-both (OnOk (AddsIfNamed u)) (refused (refuse trunk_unknown)) _ (port == []) tt (
          OnOk->>= (λ (c : Carried k digest). IsOwnedDraft k (names k u.network) [] c.draft)
            (AddsIfNamed u) carried (finish_plan k digest d vids managed port u)
            (carry-IsOwnedDraft k digest laws (names k u.network) [] port vids u.kept prev.converted
              bridge start begun)
            (finish_plan-AddsIfNamed d vids managed port u)))

  empty_plan-IsAddition : (u : Undone k) → IsAddition u (empty_plan k digest u)
  unfolding empty_plan
  empty_plan-IsAddition u = record {
    network = u.network;
    wireless = u.wireless;
    network_added = [];
    wireless_added = [];
    network_is = refl;
    wireless_is = refl;
    network_names = sym (append-nil (names k u.network));
    wireless_names = sym (append-nil (names k u.wireless));
    listed = refl;
    all_owned = owned_names-AllOwned [] u.kept tt;
  }

  plan-AddsIfNamed :
      (w n : List Section) (d : Desired) (detected : Bytes) (prev : Ledger)
      → OnOk (AddsIfNamed (undo k w n prev)) (plan k digest w n d detected prev)
  unfolding plan
  plan-AddsIfNamed w n d detected prev =
      let u = undo k w n prev in
      option-both (OnOk (AddsIfNamed u))
        (if length d.vlans == 0
          then ok (empty_plan k digest u)
          else vlan_plan k digest d detected prev u)
        refused (validate d)
        (if-both (OnOk (AddsIfNamed u)) (ok (empty_plan k digest u))
          (vlan_plan k digest d detected prev u) (length d.vlans == 0)
          (λ words. empty_plan-IsAddition u) (vlan_plan-AddsIfNamed d detected prev u))
        (λ r. tt)

-- Where each managed interface's name has a letter, a digit or an underscore, a plan adds sections to
-- what `undo` left of the two configurations, and its ledger lists exactly their names, in order, and the
-- section of a conversion that stays. Each of these names is one that `OwnedName` knows. `Reindex` aside,
-- no other section comes or goes. The package's sections keep their names when an option is set.
pub plan-AllOwned :
    (k : Kit) (digest : Bytes → Bytes) (laws : NameLaws k) (w n : List k.Section) (d : Desired)
    (detected : Bytes) (prev : Ledger) (p : Plan k digest)
    → plan k digest w n d detected prev ≡ ok p
    → All (λ n. any is_word n ≡ true) p.managed
    → IsAddition k digest laws (undo k w n prev) p
plan-AllOwned k digest laws w n d detected prev p e =
    subst (OnOk (AddsIfNamed k digest laws (undo k w n prev))) e
      (plan-AddsIfNamed k digest laws w n d detected prev)

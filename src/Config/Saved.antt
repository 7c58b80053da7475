-- ===== src/Config/Saved.antt =====
-- internal/config/config.go: what a restart reads after `SaveCredentials`.
use mathlib.Core.Path.{fun_ext}
use perch_apd.Base.{
  ℕ, Bool, true, Option, none, some, List, [], ◌∷◌, ◌≡◌, refl, sym, ap, ◌∙◌, arith, inl, inr, ◌==◌,
  bytes_eq, bytes_beq, if◌then◌else◌, Bytes, codes, Option-cases, Bool-cases,
}
use perch_apd.Base.Text.{trim_space}
use perch_apd.Base.Sort.{bytes_leb}
use perch_apd.Uci.Tokens.{valid_name}
use perch_apd.Uci.File.{File, updated, set, get, get_list, has_section, parse, bytes}
use perch_apd.Uci.File.Newlines.{NoNewline, NoReturn}
use perch_apd.Uci.File.Ready.{IsReady, parse-IsReady, IsPut, set-IsPut}
use perch_apd.Config.{
  allow_names, Config, UrlKit, Options, Lists, section_name, controller_of, read_config, load,
  update_key, update_keys_loop, sorted_keys, start_file, update, save_credentials,
}

-- The settings behind a join.
abbrev pub joined : Bytes → Bytes → Config → Config
joined agent_id agent_secret c = record c {
  agent_id = trim_space agent_id;
  agent_secret = trim_space agent_secret;
  join_token = [];
}

abbrev map_option : (Config → Config) → Option Config → Option Config
map_option f none = none
map_option f (some c) = some (f c)

-- The options with the credentials, and the token as it is left.
abbrev changed : Bytes → Bytes → Option Bytes → Options → Options
changed agent_id agent_secret token opts k =
    if k == codes "join_token"
    then token
    else if k == codes "agent_secret"
    then some agent_secret
    else if k == codes "agent_id"
    then some agent_id
    else opts k

abbrev trimmed : Option Bytes → Bytes
trimmed none = []
trimmed (some v) = trim_space v

read_config-changed :
    (kit : UrlKit) (limit : ℕ) (agent_id agent_secret : Bytes) (token : Option Bytes)
    (opts : Options) (lists : Lists)
    → trimmed token ≡ []
    → read_config kit limit (changed agent_id agent_secret token opts) lists
      ≡ map_option (joined agent_id agent_secret) (read_config kit limit opts lists)
unfolding read_config controller_of allow_names bytes_beq
read_config-changed kit limit agent_id agent_secret none opts lists h =
    elim (Option-cases (controller_of kit opts)) [
      | inl bad ↦ rw (read_config, bad) refl
      | inr (u, good) ↦ rw (read_config, good) refl
    ]
read_config-changed kit limit agent_id agent_secret (some v) opts lists h =
    elim (Option-cases (controller_of kit opts)) [
      | inl bad ↦ rw (read_config, bad) refl
      | inr (u, good) ↦ rw (read_config, good, h) refl
    ]

abbrev Gets : File → Options
Gets f = get f section_name

-- The file in three steps.
record IsJoined (agent_id agent_secret : Bytes) (f g : File) : Type 0 where
  token : Option Bytes
  blank : trimmed token ≡ []
  gets : (k : Bytes) → get g section_name k ≡ changed agent_id agent_secret token (Gets f) k
  lists : (k : Bytes) → get_list g section_name k ≡ get_list f section_name k
  reread : parse (bytes g) ≡ g

trim_space-nil : trim_space [] ≡ []
unfolding trim_space
trim_space-nil = refl

abbrev Entries : Type 0
Entries = List (Bytes × Option Bytes)

loop-set :
    (f g : File) (key v : Bytes) (rest : Entries)
    → set f section_name key v ≡ updated g
    → update_keys_loop ((key, some v) ∷ rest) f ≡ update_keys_loop rest g
unfolding update_keys_loop update_key
loop-set f g key v rest e = ground arith

loop-missing :
    (f : File) (key : Bytes)
    → get f section_name key ≡ none
    → update_keys_loop ((key, none) ∷ []) f ≡ some f
unfolding update_keys_loop update_key
loop-missing f key e = ground arith

loop-emptied :
    (f g : File) (key v : Bytes)
    → get f section_name key ≡ some v
    → set f section_name key [] ≡ updated g
    → update_keys_loop ((key, none) ∷ []) f ≡ some g
unfolding update_keys_loop update_key
loop-emptied f g key v there e = ground arith

module _ (f g g' : File) (agent_id agent_secret : Bytes)
    (one : IsPut section_name (codes "agent_id") agent_id f g)
    (two : IsPut section_name (codes "agent_secret") agent_secret g g') where
  missing-IsJoined :
      get g' section_name (codes "join_token") ≡ none → IsJoined agent_id agent_secret f g'
  missing-IsJoined missing = record {
    token = none;
    blank = refl;
    gets = λ k. elim (Bool-cases (k == codes "join_token")) [
      | inl it ↦ rw it (ap (Gets g') ((bytes_eq.beq_iff k (codes "join_token")).0 it) ∙ missing)
      | inr other ↦ rw other (
          two.gets k
          ∙ ap (λ (o : Option Bytes). if k == codes "agent_secret" then some agent_secret else o)
              (one.gets k))
    ];
    lists = λ k. two.lists k ∙ one.lists k;
    reread = two.reread;
  }

  emptied-IsJoined :
      (g'' : File)
      → IsPut section_name (codes "join_token") [] g' g''
      → IsJoined agent_id agent_secret f g''
  emptied-IsJoined g'' three = record {
    token = some [];
    blank = trim_space-nil;
    gets = λ k.
        three.gets k
        ∙ ap (λ (o : Option Bytes). if k == codes "join_token" then some [] else o)
            (two.gets k
              ∙ ap
                  (λ (o : Option Bytes). if k == codes "agent_secret" then some agent_secret else o)
                  (one.gets k));
    lists = λ k. three.lists k ∙ (two.lists k ∙ one.lists k);
    reread = three.reread;
  }

abbrev entries : Bytes → Bytes → Entries
entries agent_id agent_secret =
    (codes "agent_id", some agent_id)
    ∷ (codes "agent_secret", some agent_secret)
    ∷ (codes "join_token", none)
    ∷ []

abbrev HasJoined : Bytes → Bytes → File → Type 0
HasJoined agent_id agent_secret f =
    (g : File) × (update_keys_loop (entries agent_id agent_secret) f ≡ some g)
    × IsJoined agent_id agent_secret f g

module _ (f : File) (agent_id agent_secret : Bytes) (n : NoNewline agent_id) (r : NoReturn agent_id)
    (n' : NoNewline agent_secret) (r' : NoReturn agent_secret) where
  last_step :
      (g g' : File)
      → set f section_name (codes "agent_id") agent_id ≡ updated g
      → set g section_name (codes "agent_secret") agent_secret ≡ updated g'
      → IsPut section_name (codes "agent_id") agent_id f g
      → IsPut section_name (codes "agent_secret") agent_secret g g'
      → HasJoined agent_id agent_secret f
  unfolding valid_name
  last_step g g' e e' one two =
      let start =
        loop-set f g (codes "agent_id") agent_id _ e
        ∙ loop-set g g' (codes "agent_secret") agent_secret _ e' in
      elim (Option-cases (get g' section_name (codes "join_token"))) [
        | inl missing ↦ (
          g',
          start ∙ loop-missing g' (codes "join_token") missing,
          missing-IsJoined f g g' agent_id agent_secret one two missing,
        )
        | inr (v, there) ↦
            let (g'', e'', three) =
              set-IsPut g' section_name (codes "join_token") [] refl refl refl two.ready in
            (
              g'',
              start ∙ loop-emptied g' g'' (codes "join_token") v there e'',
              emptied-IsJoined f g g' agent_id agent_secret one two g'' three,
            )
      ]

  update_keys_loop-joined : IsReady section_name f → HasJoined agent_id agent_secret f
  unfolding valid_name
  update_keys_loop-joined ready =
      let (g, e, one) = set-IsPut f section_name (codes "agent_id") agent_id refl n r ready in
      let (g', e', two) =
        set-IsPut g section_name (codes "agent_secret") agent_secret refl n' r' one.ready in
      last_step g g' e e' one two

load-eq :
    (kit : UrlKit) (limit : ℕ) (f : File)
    → load kit limit f ≡ read_config kit limit (get f section_name) (get_list f section_name)
unfolding load
load-eq kit limit f = refl

update-eq :
    (missing : Bool) (default : File) (agent_id agent_secret : Bytes) (f : File)
    → has_section f section_name ≡ true
    → update missing default (entries agent_id agent_secret) f
      ≡ update_keys_loop (entries agent_id agent_secret) f
unfolding update start_file sorted_keys bytes_leb
update-eq missing default agent_id agent_secret f has = rw (start_file, has) refl

save_credentials-eq :
    (missing : Bool) (default : File) (agent_id agent_secret : Bytes) (f g : File) (c : Config)
    → update missing default (entries agent_id agent_secret) f ≡ some g
    → save_credentials missing default agent_id agent_secret (f, c)
      ≡ some (g, record c { agent_id = agent_id; agent_secret = agent_secret; join_token = [] })
unfolding save_credentials
save_credentials-eq missing default agent_id agent_secret f g c e = rw (save_credentials, e) refl

read_back :
    (kit : UrlKit) (limit : ℕ) (agent_id agent_secret : Bytes) (f g : File) (c : Config)
    → IsJoined agent_id agent_secret f g
    → load kit limit f ≡ some c
    → load kit limit (parse (bytes g)) ≡ some (joined agent_id agent_secret c)
read_back kit limit agent_id agent_secret f g c is loaded =
    let opts : get g section_name ≡ changed agent_id agent_secret is.token (Gets f) =
      fun_ext is.gets in
    let lists : get_list g section_name ≡ get_list f section_name = fun_ext is.lists in
    ap (load kit limit) is.reread
    ∙ (load-eq kit limit g
        ∙ (ap (λ (o : Options). read_config kit limit o (get_list g section_name)) opts
            ∙ (ap
                  (λ (l : Lists).
                    read_config kit limit (changed agent_id agent_secret is.token (Gets f)) l)
                  lists
                ∙ (read_config-changed kit limit agent_id agent_secret is.token (Gets f)
                      (get_list f section_name) is.blank
                    ∙ ap (map_option (joined agent_id agent_secret))
                        (sym (load-eq kit limit f) ∙ loaded)))))

-- The daemon that restarts behind a join reads what the join gave: from any file with the main section,
-- without carriage returns and with readable settings, `SaveCredentials` writes a file from which `Load`
-- gives the same settings with the new credentials, trimmed, and without the join token, where the
-- credentials have no line breaks.
pub load-save_credentials :
    (kit : UrlKit) (limit : ℕ) (s agent_id agent_secret : Bytes) (missing : Bool) (default : File)
    (c : Config)
    → NoReturn s
    → NoNewline agent_id
    → NoReturn agent_id
    → NoNewline agent_secret
    → NoReturn agent_secret
    → has_section (parse s) section_name ≡ true
    → load kit limit (parse s) ≡ some c
    → (g : File) × (save_credentials missing default agent_id agent_secret (parse s, c)
        ≡ some (g, record c { agent_id = agent_id; agent_secret = agent_secret; join_token = [] }))
      × (load kit limit (parse (bytes g)) ≡ some (joined agent_id agent_secret c))
load-save_credentials kit limit s agent_id agent_secret missing default c ret n r n' r' has loaded =
    let f = parse s in
    let (g, done, is) =
      update_keys_loop-joined f agent_id agent_secret n r n' r'
        (parse-IsReady section_name s ret has) in
    (
      g,
      save_credentials-eq missing default agent_id agent_secret f g c
          (update-eq missing default agent_id agent_secret f has ∙ done),
      read_back kit limit agent_id agent_secret f g c is loaded,
    )

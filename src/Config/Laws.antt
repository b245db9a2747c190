-- ===== src/Config/Laws.antt =====
-- What a configuration that was loaded is, and what loading it again gives.
use bazel_broker.Common.{
  ℕ, ◌≡◌, ◌≢◌, refl, sym, ap, subst, ◌∙◌, inl, inr, Bool, true, false, ◌||◌, Option, none, some,
  List, [], ◌∷◌, ◌++◌, GoString, is_empty, pos, is_zero, ◌≤ℤ◌, if◌then◌else◌, Bool-cases,
  Option-cases, arith,
}
use bazel_broker.Config.{
  Config, Environment, ReadResult, contents, not_exist, read_failed, Platform, ConfigError, no_home,
  no_random, read_error, parse_failed, Loaded, loaded, load_failed, validate, validated, state_dir,
  config_path, apply_scalars, apply_paths, apply_defaults, default_config, save, complete,
  save_loaded, bootstrap, load_read, load,
}

-- A file that was written is read back, and a configuration from its own text, whatever stood there before.
pub record IsFaithful (P : Platform) : Type 0 where
  pub read-write :
      (w : P.Disk) (path text : GoString)
      → (P.write_file w path text).0 ≡ true
      → P.read_file (P.write_file w path text).1 path ≡ contents text
  pub unmarshal-marshal : (c base : Config) → P.unmarshal (P.marshal c ++ 10 ∷ []) base ≡ some c

-- A port that can be bound, a token, and the paths of the database and of the log.
abbrev pub IsUsable : Config → Type 0
IsUsable c =
    (pos 1 ≤ℤ c.port)
    × (c.port ≤ℤ pos 65535)
    × (is_empty c.token ≡ false)
    × (is_empty c.db_path ≡ false)
    × (is_empty c.log_path ≡ false)

-- The fields with a fixed default are set.
abbrev HasScalars : Config → Type 0
HasScalars c =
    (is_empty c.host ≡ false) × (is_zero c.port ≡ false) × (is_empty c.profile_open ≡ false)

validate-IsUsable : (c : Config) → validate c ≡ none → IsUsable c
unfolding validate
validate-IsUsable c h = ground arith

loaded-injective : (x c : Config) → loaded x ≡ loaded c → x ≡ c
loaded-injective x c h = ap config_of h
  where
    config_of : Loaded → Config
    config_of (loaded d) = d
    config_of (load_failed e) = x

not_loaded : (e : ConfigError) (c : Config) → load_failed e ≢ loaded c
not_loaded e c q = cc

validated-loaded : (x c : Config) → validated x ≡ loaded c → (x ≡ c) × (validate c ≡ none)
unfolding validated
validated-loaded x c h =
    let (same, valid) = go (validate x) h in (same, subst (λ y. validate y ≡ none) same valid)
  where
    go :
        (v : Option ConfigError)
        → (elim v [ none ↦ loaded x | some e ↦ load_failed e ]) ≡ loaded c
        → (x ≡ c) × (v ≡ none)
    go none h = (loaded-injective x c h, refl)
    go (some e) h = absurd (cc)

validated-id : (c : Config) → validate c ≡ none → validated c ≡ loaded c
unfolding validated
validated-id c e = rw (validated, e) refl

module _ (P : Platform) (env : Environment) where
  apply_scalars-HasScalars : (c : Config) → HasScalars (apply_scalars P env c)
  unfolding apply_scalars
  apply_scalars-HasScalars c = ground arith

  apply_scalars-id : (c : Config) → HasScalars c → apply_scalars P env c ≡ c
  unfolding apply_scalars
  apply_scalars-id c (h, p, o) = rw (apply_scalars, h, p, o) refl

  apply_defaults-id : (c : Config) → HasScalars c → IsUsable c → apply_defaults P env c ≡ (c, true)
  unfolding apply_defaults
  apply_defaults-id c h u =
      rw (apply_defaults, u.3, u.4) (ap (λ x. (x, true)) (apply_scalars-id c h))

  apply_defaults-HasScalars : (c : Config) → HasScalars (apply_defaults P env c).0
  unfolding apply_defaults apply_paths
  apply_defaults-HasScalars c = elim (Bool-cases (is_empty c.db_path || is_empty c.log_path)) [
    | inl e ↦ elim (Option-cases (state_dir P env)) [
      | inl n ↦ rw (e, n, apply_defaults) (apply_scalars-HasScalars c)
      | inr (sd, n) ↦ rw (e, n, apply_defaults) (apply_scalars-HasScalars c)
    ]
    | inr e ↦ rw (e, apply_defaults) (apply_scalars-HasScalars c)
  ]

  -- What completing a configuration gives is complete.
  complete-loaded :
      (x c : Config) → complete P env x ≡ loaded c → IsUsable c × (complete P env c ≡ loaded c)
  unfolding complete
  complete-loaded x c h = go (apply_defaults P env x).1 h
    where
      go :
          (fine : Bool)
          → (if fine then validated (apply_defaults P env x).0 else load_failed no_home) ≡ loaded c
          → IsUsable c × (complete P env c ≡ loaded c)
      go false k = absurd (cc)
      go true k =
          let (same, valid) = validated-loaded (apply_defaults P env x).0 c k in
          let usable = validate-IsUsable c valid in
          let scalars = subst HasScalars same (apply_defaults-HasScalars x) in
          (usable, rw (complete, apply_defaults-id c scalars usable) (validated-id c valid))

  save-read :
      (w : P.Disk) (path : GoString) (c : Config)
      → IsFaithful P
      → (save P env w path c).0 ≡ none
      → P.read_file (save P env w path c).1 path ≡ contents (P.marshal c ++ 10 ∷ [])
  unfolding save
  save-read w path c faithful h = elim (Bool-cases (P.mkdir_all w (P.dir path)).0) [
    | inl e ↦
        elim (Bool-cases
          (P.write_file (P.mkdir_all w (P.dir path)).1 path (P.marshal c ++ 10 ∷ [])).0) [
            | inl f ↦
                rw (e, f, save)
                  (faithful.read-write (P.mkdir_all w (P.dir path)).1 path (P.marshal c ++ 10 ∷ [])
                    f)
            | inr f ↦ absurd (ground arith)
          ]
    | inr e ↦ absurd (ground arith)
  ]

  save_loaded-loaded :
      (w w' : P.Disk) (path : GoString) (x : Loaded) (c : Config)
      → IsFaithful P
      → save_loaded P env w path x ≡ (loaded c, w')
      → (x ≡ loaded c) × (P.read_file w' path ≡ contents (P.marshal c ++ 10 ∷ []))
  unfolding save_loaded
  save_loaded-loaded w w' path (load_failed e) c faithful h =
      absurd (not_loaded e c (ap (λ (y : Loaded × P.Disk). y.0) h))
  save_loaded-loaded w w' path (loaded d) c faithful h =
      let (same, fine) = go (save P env w path d).0 (ap (λ (y : Loaded × P.Disk). y.0) h) in
      (
        ap loaded same,
        subst (λ (y : P.Disk). P.read_file y path ≡ contents (P.marshal c ++ 10 ∷ []))
            (ap (λ (y : Loaded × P.Disk). y.1) h)
            (subst
              (λ (y : Config).
                P.read_file (save P env w path d).1 path ≡ contents (P.marshal y ++ 10 ∷ []))
              same (save-read w path d faithful fine)),
      )
    where
      go :
          (err : Option ConfigError)
          → (elim err [ none ↦ loaded d | some e ↦ load_failed e ]) ≡ loaded c
          → (d ≡ c) × (err ≡ none)
      go none q = (loaded-injective d c q, refl)
      go (some e) q = absurd (cc)

  -- A result that is a configuration: it is usable, and it loads again, whatever the random bytes.
  abbrev pub LoadsAgain : P.Disk → GoString → Config → Type 0
  LoadsAgain w path c =
      IsUsable c
      × ((random : Option (List ℕ))
          → load_read P env w random path (P.read_file w path) ≡ (loaded c, w))

  written-LoadsAgain :
      (w : P.Disk) (path : GoString) (x c : Config)
      → IsFaithful P
      → complete P env x ≡ loaded c
      → P.read_file w path ≡ contents (P.marshal c ++ 10 ∷ [])
      → LoadsAgain w path c
  unfolding load_read
  written-LoadsAgain w path x c faithful h e =
      let (usable, again) = complete-loaded x c h in
      (
        usable,
        λ random.
            rw (e, load_read, faithful.unmarshal-marshal c (default_config P env), again) refl,
      )

  parsed-IsUsable :
      (parsed : Option Config) (c : Config)
      → (elim parsed [ none ↦ load_failed parse_failed | some x ↦ complete P env x ]) ≡ loaded c
      → IsUsable c
  parsed-IsUsable none c h = absurd (not_loaded parse_failed c h)
  parsed-IsUsable (some x) c h = (complete-loaded x c h).0

  load_read-LoadsAgain :
      (w w' : P.Disk) (random : Option (List ℕ)) (path : GoString) (c : Config) (found : ReadResult)
      → IsFaithful P
      → P.read_file w path ≡ found
      → load_read P env w random path found ≡ (loaded c, w')
      → LoadsAgain w' path c
  unfolding load_read bootstrap
  load_read-LoadsAgain w w' random path c (contents text) faithful e h =
      let disk : w ≡ w' = ap (λ (y : Loaded × P.Disk). y.1) h in
      (
        parsed-IsUsable (P.unmarshal text (default_config P env)) c
            (ap (λ (y : Loaded × P.Disk). y.0) h),
        λ again.
            subst
              (λ (d : P.Disk). load_read P env d again path (P.read_file d path) ≡ (loaded c, d))
              disk
              (ap (load_read P env w again path) e
                ∙ h
                ∙ ap (λ (d : P.Disk). (loaded c, d)) (sym disk)),
      )
  load_read-LoadsAgain w w' none path c not_exist faithful e h =
      absurd (not_loaded no_random c (ap (λ (y : Loaded × P.Disk). y.0) h))
  load_read-LoadsAgain w w' (some bytes) path c not_exist faithful e h =
      let (fresh, written) = save_loaded-loaded w w' path _ c faithful h in
      written-LoadsAgain w' path _ c faithful fresh written
  load_read-LoadsAgain w w' random path c read_failed faithful e h =
      absurd (not_loaded read_error c (ap (λ (y : Loaded × P.Disk). y.0) h))

  load-no_home :
      (w : P.Disk) (random : Option (List ℕ))
      → config_path P env ≡ none
      → load P env w random ≡ (load_failed no_home, w)
  unfolding load
  load-no_home w random n = rw (load, n) refl

  load-path :
      (w : P.Disk) (random : Option (List ℕ)) (path : GoString)
      → config_path P env ≡ some path
      → load P env w random ≡ load_read P env w random path (P.read_file w path)
  unfolding load
  load-path w random path n = rw (load, n) refl

  -- A configuration that `Load` gives, read from its file or written on the first run, has a port from 1 to
  -- 65535, a token and the paths of the database and of the log; and to load it again gives the same
  -- configuration and writes nothing, whatever the random bytes are then. (What is written is read back.)
  pub load-again :
      (w w' : P.Disk) (random again : Option (List ℕ)) (c : Config)
      → IsFaithful P
      → load P env w random ≡ (loaded c, w')
      → IsUsable c × (load P env w' again ≡ (loaded c, w'))
  load-again w w' random again c faithful h = elim (Option-cases (config_path P env)) [
    | inl n ↦ absurd (
        not_loaded no_home c
          (ap (λ (y : Loaded × P.Disk). y.0) (sym (load-no_home w random n) ∙ h)))
    | inr (path, n) ↦
        let (usable, same) =
          load_read-LoadsAgain w w' random path c (P.read_file w path) faithful refl
            (sym (load-path w random path n) ∙ h) in
        (usable, load-path w' again path n ∙ same again)
  ]

-- ===== src/Config/Flags.antt =====
-- LoadFromFlags of src/pkg/config/config.go, and the checks of addresses. The flags that Go's flag
-- package parsed are given in the order of the command line; name resolution is a parameter.
use failure_detector.Prelude.{
  ℕ, ◌≡◌, ◌⊎◌, inl, inr, refl, Bool, true, false, not, ◌&&◌, ◌||◌, List, [], ◌∷◌, Option, none,
  some, arith, ltb, ◌==◌, if◌then◌else◌, Bool-cases,
}
use failure_detector.Prelude.Int.{ℤ, i64_end}
use failure_detector.Go.Text.{Text, parse_uint}
use failure_detector.Go.Clock.{Duration}
use failure_detector.Go.Float.{Float64}
use failure_detector.Config.{Config, ConfigError, defaults, bad_mode, validate_cluster_params}
use failure_detector.Config.Apply.{is_empty}

-- net.ResolveUDPAddr and net.ResolveTCPAddr: whether a text has an address.
pub record Resolver : Type 0 where
  pub udp : Text → Bool
  pub tcp : Text → Bool

pub data Flag : Type 0 where
  bind self introducer admin mode : Text → Flag
  is_introducer : Bool → Flag
  ping_every gossip_period t_suspect t_fail t_cleanup : Duration → Flag
  ping_fanout gossip_fanout : ℤ → Flag
  drop_recv : Float64 → Flag

-- What LoadFromFlags holds: the config, and the text of the flag for the mode.
pub record Loading : Type 0 where
  pub def : Config
  pub mode : Text

-- A flag sets its variable.
unfoldable pub set_flag : Flag → Loading → Loading
set_flag (bind t) l = record l { def = record l.def { bind_addr = t } }
set_flag (self t) l = record l { def = record l.def { self_addr = t } }
set_flag (introducer t) l = record l { def = record l.def { introducer = t } }
set_flag (admin t) l = record l { def = record l.def { admin_http = t } }
set_flag (mode t) l = record l { mode = t }
set_flag (is_introducer b) l = record l { def = record l.def { is_introducer = b } }
set_flag (ping_every d) l = record l { def = record l.def { ping_every = d } }
set_flag (gossip_period d) l = record l { def = record l.def { gossip_period = d } }
set_flag (t_suspect d) l = record l { def = record l.def { t_suspect = d } }
set_flag (t_fail d) l = record l { def = record l.def { t_fail = d } }
set_flag (t_cleanup d) l = record l { def = record l.def { t_cleanup = d } }
set_flag (ping_fanout n) l = record l { def = record l.def { ping_fanout = n } }
set_flag (gossip_fanout n) l = record l { def = record l.def { gossip_fanout = n } }
set_flag (drop_recv x) l = record l { def = record l.def { drop_rate_recv = x } }

-- flag.Parse
unfoldable pub set_flags : List Flag → Loading → Loading
unfolding set_flag
set_flags [] l = l
set_flags (f ∷ fs) l = set_flags fs (set_flag f l)

pub data LoadError : Type 0 where
  invalid_mode bad_self bad_bind introducer_choice bad_introducer bad_admin : LoadError
  bad_cluster : ConfigError → LoadError

abbrev pub in_i64 : Bool → Option ℕ → Bool
in_i64 negative none = false
in_i64 true (some n) = not (ltb i64_end n)
in_i64 false (some n) = ltb n i64_end

-- Whether strconv.Atoi gives no error
unfoldable pub atoi_ok : Text → Bool
atoi_ok [] = false
atoi_ok (c ∷ s) =
    if c == b'-'
    then in_i64 true (parse_uint s)
    else if c == b'+'
    then in_i64 false (parse_uint s)
    else in_i64 false (parse_uint (c ∷ s))

module _ (net : Resolver) where
  -- validateUDPAddr; false is an error
  abbrev pub udp_addr_ok : Text → Bool
  udp_addr_ok addr = not (is_empty addr) && net.udp addr

  -- validateAdminAddr; false is an error
  unfoldable pub admin_addr_ok : Text → Bool
  unfolding atoi_ok
  admin_addr_ok [] = false
  admin_addr_ok (c ∷ p) = if c == b':' then atoi_ok p else net.tcp (c ∷ p)

  -- ValidateLocalBootstrap; `none` is the nil error
  unfoldable pub validate_local_bootstrap : Config → Option LoadError
  unfolding admin_addr_ok
  validate_local_bootstrap c =
      if not (udp_addr_ok c.self_addr)
      then some bad_self
      else if not (udp_addr_ok c.bind_addr)
      then some bad_bind
      else if (is_empty c.introducer && not c.is_introducer)
          || (not (is_empty c.introducer) && c.is_introducer)
      then some introducer_choice
      else if not (is_empty c.introducer) && not (udp_addr_ok c.introducer)
      then some bad_introducer
      else if not (admin_addr_ok c.admin_http)
      then some bad_admin
      else none

  abbrev pub checked_cluster : Config → Option ConfigError → LoadError ⊎ Config
  checked_cluster c none = inr c
  checked_cluster c (some e) = inl (bad_cluster e)

  abbrev pub checked_local : Config → Option LoadError → LoadError ⊎ Config
  checked_local c none = checked_cluster c (validate_cluster_params c)
  checked_local c (some e) = inl e

  abbrev pub with_mode : Loading → LoadError ⊎ Config
  with_mode l =
      if bad_mode l.mode
      then inl invalid_mode
      else let c : Config = record l.def { mode = l.mode } in
        checked_local c (validate_local_bootstrap c)

  -- LoadFromFlags, on the host of the given name
  unfoldable pub load_from_flags : Text → List Flag → LoadError ⊎ Config
  unfolding set_flags validate_local_bootstrap
  load_from_flags hostname flags =
      with_mode
        (set_flags flags (record { def = defaults hostname; mode = (defaults hostname).mode }))

  checked_cluster-ok :
      (c d : Config) (o : Option ConfigError) → checked_cluster c o ≡ inr d → (d ≡ c) × (o ≡ none)
  checked_cluster-ok c d none h = ground arith
  checked_cluster-ok c d (some e) h = absurd (ground arith)

  checked_local-ok :
      (c d : Config) (o : Option LoadError)
      → checked_local c o ≡ inr d
      → (d ≡ c) × (o ≡ none) × (validate_cluster_params d ≡ none)
  checked_local-ok c d none h =
      let (same, valid) = checked_cluster-ok c d (validate_cluster_params c) h in
      (same, refl, rw same valid)
  checked_local-ok c d (some e) h = absurd (ground arith)

  bootstrap-ok :
      (c : Config)
      → validate_local_bootstrap c ≡ none
      → (udp_addr_ok c.self_addr ≡ true)
        × (udp_addr_ok c.bind_addr ≡ true)
        × (admin_addr_ok c.admin_http ≡ true)
        × (((is_empty c.introducer ≡ true) × (c.is_introducer ≡ true))
            ⊎ ((udp_addr_ok c.introducer ≡ true) × (c.is_introducer ≡ false)))
  unfolding validate_local_bootstrap
  bootstrap-ok c h = ground arith

  -- Whatever the flags are, a configuration that LoadFromFlags returns has valid cluster parameters,
  -- resolvable own and bind addresses and a usable admin address, and either it is an introducer's
  -- and names no introducer, or it is not and names one that can be resolved.
  pub load_from_flags_lem :
      (hostname : Text) (flags : List Flag) (c : Config)
      → load_from_flags hostname flags ≡ inr c
      → (validate_cluster_params c ≡ none)
        × (udp_addr_ok c.self_addr ≡ true)
        × (udp_addr_ok c.bind_addr ≡ true)
        × (admin_addr_ok c.admin_http ≡ true)
        × (((is_empty c.introducer ≡ true) × (c.is_introducer ≡ true))
            ⊎ ((udp_addr_ok c.introducer ≡ true) × (c.is_introducer ≡ false)))
  unfolding load_from_flags
  load_from_flags_lem hostname flags c h =
      let start : Loading = record { def = defaults hostname; mode = (defaults hostname).mode } in
      let l = set_flags flags start in
      elim (Bool-cases (bad_mode l.mode)) [
        | inl bad ↦ absurd (ground arith)
        | inr good ↦
            let next : Config = record l.def { mode = l.mode } in
            let (same, local, valid) =
              checked_local-ok next c (validate_local_bootstrap next) (rw good at h) in
            let (self_ok, bind_ok, admin_ok, choice) = bootstrap-ok c (rw same local) in
            (valid, self_ok, bind_ok, admin_ok, choice)
      ]

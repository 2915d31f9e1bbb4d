-- ===== src/Version/Resource.antt =====
-- cmd/versioninfo/main.go: the configuration of the Windows resource, from the options. The resource
-- compiler's own defaults are not shown: the fields are those that buildConfig sets.
use fileserver_mcp.Base.{
  ℕ, [], Text, codes, ◌=ᵗ◌, text_eq_iff, Bool, true, false, not, ◌&&◌, ◌||◌, Option, none, some,
  ◌≡◌, ◌∙◌, ap, sym, subst, Option-cases, Bool-cases, ◌++◌, ◌⊎◌, inl, inr, refl, arith,
}
use fileserver_mcp.Version.{
  VersionError, Versioned, valid, invalid, windows_file_version, parse_file_version,
}
use fileserver_mcp.Version.Identity.{Times, copyright_text, copyright_holder}
use fileserver_mcp.Version.FileVersion.{Mapped, windows_file_version-Mapped}

pub record ResourceOptions : Type 0 where
  pub product_version : Text
  pub source_time : Text
  pub goarch : Text
  pub output : Text
  pub icon : Text

pub data ConfigError : Type 0 where
  version_required source_time_required output_required icon_required unsupported_goarch
        invalid_source_time not_canonical :
      ConfigError
  bad_version : VersionError → ConfigError

pub record ResourceConfig : Type 0 where
  pub skip_version_info : Bool
  pub output_file : Text
  pub icon_path : Text
  pub application_icon_path : Text
  pub comment : Text
  pub company_name : Text
  pub description : Text
  pub file_version : Text
  pub internal_name : Text
  pub copyright : Text
  pub original_name : Text
  pub product_name : Text
  pub product_version : Text
  pub translation_id : ℕ
  pub charset_id : ℕ
  pub is_64_bit : Bool
  pub is_arm : Bool
  pub version_numbers : ℕ × ℕ × ℕ × ℕ
  pub product_version_numbers : ℕ × ℕ × ℕ × ℕ

infixl 5 ◌>>=◌
abbrev ◌>>=◌ : {V W : Type 0} → ConfigError ⊎ V → (V → ConfigError ⊎ W) → ConfigError ⊎ W
inl e >>= next = inl e
inr v >>= next = next v

infixl 5 ◌>>◌
abbrev ◌>>◌ : {W : Type 0} → ConfigError ⊎ Unit {0} → ConfigError ⊎ W → ConfigError ⊎ W
check >> next = check >>= λ done. next

abbrev refuse_if : Bool → ConfigError → ConfigError ⊎ Unit {0}
refuse_if true e = inl e
refuse_if false e = inr tt

unfoldable pub of_version : {V : Type 0} → Versioned V → ConfigError ⊎ V
of_version (valid v) = inr v
of_version (invalid e) = inl (bad_version e)

-- The resource is made, or its version is refused: no earlier check has failed.
comes_late : ConfigError ⊎ ResourceConfig → Bool
comes_late (inr c) = true
comes_late (inl (bad_version e)) = true
comes_late (inl _) = false

refuse_if-late :
    (b : Bool) (e : ConfigError) (next : ConfigError ⊎ ResourceConfig)
    {made : ConfigError ⊎ ResourceConfig}
    → comes_late made ≡ true
    → comes_late (inl e) ≡ false
    → (refuse_if b e >> next) ≡ made
    → (b ≡ false) × (next ≡ made)
refuse_if-late true e next late early h = absurd (ground (arith, ap comes_late h))
refuse_if-late false e next late early h = (refl, h)

amd64_other : (codes "amd64" =ᵗ codes "arm64") ≡ false
unfolding ◌=ᵗ◌
amd64_other = refl

known_cases :
    (goarch : Text)
    → (not (goarch =ᵗ codes "amd64") && not (goarch =ᵗ codes "arm64")) ≡ false
    → ((goarch ≡ codes "amd64") × ((goarch =ᵗ codes "arm64") ≡ false))
      ⊎ ((goarch ≡ codes "arm64") × ((goarch =ᵗ codes "arm64") ≡ true))
known_cases goarch h = elim (Bool-cases (goarch =ᵗ codes "amd64")) [
  | inl yes_ ↦
      let same = (text_eq_iff goarch (codes "amd64")).0 yes_ in
      inl (same, subst (λ g. (g =ᵗ codes "arm64") ≡ false) (sym same) amd64_other)
  | inr no_ ↦
      let arm : (goarch =ᵗ codes "arm64") ≡ true = ground (arith, no_) in
      inr ((text_eq_iff goarch (codes "arm64")).0 arm, arm)
]

config_in : ResourceConfig → ConfigError ⊎ ResourceConfig → ResourceConfig
config_in c (inr c2) = c2
config_in c (inl e) = c

error_in : VersionError → ConfigError ⊎ ResourceConfig → VersionError
error_in e (inl (bad_version e2)) = e2
error_in e _ = e

Versioned-cases :
    {V : Type 0} (r : Versioned V)
    → ((v : V) × (r ≡ valid v)) ⊎ ((e : VersionError) × (r ≡ invalid e))
Versioned-cases (valid v) = inl (v, refl)
Versioned-cases (invalid e) = inr (e, refl)

-- `format` is Time.Format of RFC 3339, and `is_utc` says that the time's location is time.UTC.
module _ {Time : Type 0} (times : Times Time) (format : Time → Text) (is_utc : Time → Bool) where
  unfoldable pub parsed_time : Option Time → ConfigError ⊎ Time
  parsed_time none = inl invalid_source_time
  parsed_time (some time) = inr time

  unfoldable pub resource_config : ResourceOptions → Text → ℕ × ℕ × ℕ × ℕ → ResourceConfig
  resource_config opts file_version parts = record {
    skip_version_info = true;
    output_file = opts.output;
    icon_path = opts.icon;
    application_icon_path = opts.icon;
    comment = codes "Native Model Context Protocol server for controlled local system access.";
    company_name = codes "Thomas Weidner";
    description = codes "FlashGate MCP Server";
    file_version = file_version;
    internal_name = codes "flashgate-mcp";
    copyright = copyright_text times opts.source_time;
    original_name = codes "flashgate-mcp.exe";
    product_name = codes "FlashGate MCP";
    product_version = opts.product_version;
    translation_id = 0x0409;
    charset_id = 1200;
    is_64_bit = true;
    is_arm = opts.goarch =ᵗ codes "arm64";
    version_numbers = parts;
    product_version_numbers = parts;
  }

  -- buildConfig from WindowsFileVersion on.
  unfoldable pub versioned_config : ResourceOptions → ConfigError ⊎ ResourceConfig
  versioned_config opts = do
    file_version ← of_version (windows_file_version opts.product_version)
    parts ← of_version (parse_file_version file_version)
    inr (resource_config opts file_version parts)

  unfoldable pub build_config : ResourceOptions → ConfigError ⊎ ResourceConfig
  build_config opts = do
    refuse_if (opts.product_version =ᵗ []) version_required
    refuse_if (opts.source_time =ᵗ []) source_time_required
    refuse_if (opts.output =ᵗ []) output_required
    refuse_if (opts.icon =ᵗ []) icon_required
    refuse_if (not (opts.goarch =ᵗ codes "amd64") && not (opts.goarch =ᵗ codes "arm64"))
        unsupported_goarch
    source_time ← parsed_time (times.parse_rfc3339 opts.source_time)
    refuse_if (not (format source_time =ᵗ opts.source_time) || not (is_utc source_time))
        not_canonical
    versioned_config opts

  -- The resource has the numbers of the mapped version, which are those that both of its version
  -- texts say; it is for the options' architecture, with their files; and its copyright has the year
  -- of the options' time, which is the one that this text stands for in UTC.
  pub record IsResource (opts : ResourceOptions) (c : ResourceConfig) : Type 0 where
    pub mapped : Mapped opts.product_version c.file_version
    pub numbers : c.version_numbers ≡ (mapped.major, mapped.minor, mapped.patch, 0)
    pub product_numbers : c.product_version_numbers ≡ (mapped.major, mapped.minor, mapped.patch, 0)
    pub product_version : c.product_version ≡ opts.product_version
    pub architecture :
        ((opts.goarch ≡ codes "amd64") × (c.is_arm ≡ false))
        ⊎ ((opts.goarch ≡ codes "arm64") × (c.is_arm ≡ true))
    pub output : (c.output_file ≡ opts.output) × ((opts.output =ᵗ []) ≡ false)
    pub icons : (c.icon_path ≡ opts.icon) × (c.application_icon_path ≡ opts.icon)
    pub has_icon : (opts.icon =ᵗ []) ≡ false
    pub time : Time
    pub parsed : times.parse_rfc3339 opts.source_time ≡ some time
    pub canonical : format time ≡ opts.source_time
    pub utc : is_utc time ≡ true
    pub copyright :
        c.copyright ≡ codes "Copyright © " ++ times.year_text time ++ codes " " ++ copyright_holder

  -- The file version can be read where there is one.
  versioned_config-inr :
      (opts : ResourceOptions) {c : ResourceConfig}
      → versioned_config opts ≡ inr c
      → (out : Text) × (m : Mapped opts.product_version out) × (c
          ≡ resource_config opts out (m.major, m.minor, m.patch, 0))
  unfolding versioned_config of_version config_in
  versioned_config-inr opts {c} h =
      elim (Versioned-cases (windows_file_version opts.product_version)) [
        | inr (e, bad) ↦ absurd (ground (arith, rw (versioned_config, bad) at h))
        | inl (out, good) ↦
            let m = windows_file_version-Mapped opts.product_version good in
            (out, m, sym (ap (config_in c) (rw (versioned_config, good, m.reads_back) at h)))
      ]

  versioned_config-inl :
      (opts : ResourceOptions) {e : VersionError}
      → versioned_config opts ≡ inl (bad_version e)
      → windows_file_version opts.product_version ≡ invalid e
  unfolding versioned_config of_version error_in
  versioned_config-inl opts {e} h =
      elim (Versioned-cases (windows_file_version opts.product_version)) [
        | inr (e2, bad) ↦
            bad ∙ ap (λ x. invalid x) (ap (error_in e2) (rw (versioned_config, bad) at h))
        | inl (out, good) ↦
            let m = windows_file_version-Mapped opts.product_version good in
            absurd (ground (arith, rw (versioned_config, good, m.reads_back) at h))
      ]

  -- What buildConfig has checked when it goes on to the versions.
  record Checked (opts : ResourceOptions) (made : ConfigError ⊎ ResourceConfig) : Type 0 where
    has_output : (opts.output =ᵗ []) ≡ false
    has_icon : (opts.icon =ᵗ []) ≡ false
    known_goarch :
        (not (opts.goarch =ᵗ codes "amd64") && not (opts.goarch =ᵗ codes "arm64")) ≡ false
    time : Time
    parsed : times.parse_rfc3339 opts.source_time ≡ some time
    canonical : (not (format time =ᵗ opts.source_time) || not (is_utc time)) ≡ false
    rest : versioned_config opts ≡ made

  build_config-Checked :
      (opts : ResourceOptions) (made : ConfigError ⊎ ResourceConfig)
      → comes_late made ≡ true
      → build_config opts ≡ made
      → Checked opts made
  unfolding build_config parsed_time comes_late
  build_config-Checked opts made late h =
      let (v, h1) = refuse_if-late (opts.product_version =ᵗ []) version_required _ late refl h in
      let (s, h2) = refuse_if-late (opts.source_time =ᵗ []) source_time_required _ late refl h1 in
      let (o, h3) = refuse_if-late (opts.output =ᵗ []) output_required _ late refl h2 in
      let (i, h4) = refuse_if-late (opts.icon =ᵗ []) icon_required _ late refl h3 in
      let (g, h5) =
        refuse_if-late (not (opts.goarch =ᵗ codes "amd64") && not (opts.goarch =ᵗ codes "arm64"))
          unsupported_goarch _ late refl h4 in
      elim (Option-cases (times.parse_rfc3339 opts.source_time)) [
        | inl bad ↦ absurd (ground (arith, late, rw bad at h5))
        | inr (time, parsed) ↦
            let (c, h6) =
              refuse_if-late (not (format time =ᵗ opts.source_time) || not (is_utc time))
                not_canonical _ late refl (rw parsed at h5) in
            record {
              has_output = o;
              has_icon = i;
              known_goarch = g;
              time = time;
              parsed = parsed;
              canonical = c;
              rest = h6;
            }
      ]

  -- A resource that buildConfig makes is one of the version's four numbers, the last of them 0, which
  -- both version texts of it say, for a known architecture and with the year of a canonical time.
  pub build_config-IsResource :
      (opts : ResourceOptions) {c : ResourceConfig} → build_config opts ≡ inr c → IsResource opts c
  unfolding resource_config copyright_text comes_late
  build_config-IsResource opts {c} h =
      let k = build_config-Checked opts (inr c) refl h in
      let (out, m, same) = versioned_config-inr opts k.rest in
      subst (IsResource opts) (sym same) (record {
        mapped = m;
        numbers = refl;
        product_numbers = refl;
        product_version = refl;
        architecture = known_cases opts.goarch k.known_goarch;
        output = (refl, k.has_output);
        icons = (refl, refl);
        has_icon = k.has_icon;
        time = k.time;
        parsed = k.parsed;
        canonical = (text_eq_iff (format k.time) opts.source_time).0 (ground (arith, k.canonical));
        utc = ground (arith, k.canonical);
        copyright = rw (resource_config, copyright_text, k.parsed) refl;
      })

  -- Where buildConfig fails for a version, WindowsFileVersion does not map the product version: the
  -- file version that it makes can always be read.
  pub build_config-bad_version :
      (opts : ResourceOptions) {e : VersionError}
      → build_config opts ≡ inl (bad_version e)
      → windows_file_version opts.product_version ≡ invalid e
  unfolding comes_late
  build_config-bad_version opts {e} h =
      versioned_config-inl opts
        (Checked.rest (build_config-Checked opts (inl (bad_version e)) refl h))

-- ===== src/Version/Identity.antt =====
-- version.go: the identity that the binary reports, from the values of the linker, the runtime and
-- the build information; String, VerboseString and CopyrightText.
use fileserver_mcp.Base.{
  ℕ, zero, suc, Bytes, length, not, [], ◌∷◌, ◌++◌, List, Text, codes, ◌=ᵗ◌, trim_space, Bool, true,
  false, leb, digits_after, Option, none, some, if◌then◌else◌, ◌⊎◌, inl, inr,
}
use fileserver_mcp.Config.{parse_bool}
use fileserver_mcp.Tools.Execute.{bytes_of}
use fileserver_mcp.Version.{Versioned, valid, invalid, all_digits, windows_file_version}

-- The variables that the linker may set.
pub record Linked : Type 0 where
  pub version : Text
  pub file_version : Text
  pub commit : Text
  pub date : Text
  pub modified : Text
  pub build_manifest : Text

-- What runtime and runtime/debug report; the settings are those of the build information, if any.
pub record Runtime : Type 0 where
  pub go_version : Text
  pub goos : Text
  pub goarch : Text
  pub build_settings : Option (List (Text × Text))

-- The standard library's times: time.Parse of RFC 3339, the canonical text in UTC, and the year.
pub record Times (Time : Type 0) : Type 0 where
  pub parse_rfc3339 : Text → Option Time
  pub format_utc : Time → Text
  pub year_text : Time → Text

pub record Info : Type 0 where
  pub product_name : Text
  pub binary_name : Text
  pub version : Text
  pub file_version : Text
  pub commit : Text
  pub source_time : Text
  pub modified : Bool
  pub go_version : Text
  pub goos : Text
  pub goarch : Text
  pub public_arch : Text
  pub copyright : Text
  pub build_manifest : Text

abbrev pub unknown_value : Text
unknown_value = codes "unknown"

abbrev pub default_version : Text
default_version = codes "0.0.0-dev"

abbrev pub default_file_version : Text
default_file_version = codes "0.0.0.0"

abbrev pub copyright_holder : Text
copyright_holder = codes "Thomas Weidner"

unfoldable pub value_or_default : Text → Text → Text
value_or_default value fallback =
    let trimmed = trim_space value in if trimmed =ᵗ [] then fallback else trimmed

-- parseBool of version.go; `none` is its `false, false`.
unfoldable pub parse_setting : Text → Option Bool
parse_setting value =
    let trimmed = trim_space value in if trimmed =ᵗ [] then none else parse_bool trimmed

unfoldable pub public_architecture : Text → Text
public_architecture goarch = if goarch =ᵗ codes "amd64" then codes "x64" else goarch

-- values[key], of the map that the settings are written to in their order.
unfoldable pub setting_value : List (Text × Text) → Text → Text → Text
setting_value [] key so_far = so_far
setting_value ((name, value) ∷ settings) key so_far =
    setting_value settings key (if name =ᵗ key then value else so_far)

-- The Commit field after applyVCSFallback.
unfoldable pub vcs_commit : List (Text × Text) → Text → Text
vcs_commit settings commit =
    if commit =ᵗ unknown_value
    then value_or_default (setting_value settings (codes "vcs.revision") []) unknown_value
    else commit

-- The Modified field after applyVCSFallback.
unfoldable pub vcs_modified : Option Bool → Option Bool → Bool → Bool
vcs_modified (some explicit) from_vcs before = before
vcs_modified none none before = before
vcs_modified none (some parsed) before = parsed

unfoldable pub mapped_or_default : Versioned Text → Text
mapped_or_default (valid mapped) = mapped
mapped_or_default (invalid e) = default_file_version

unfoldable pub modified_or : Option Bool → Bool → Bool
modified_or none before = before
modified_or (some parsed) before = parsed

module _ {Time : Type 0} (times : Times Time) where
  unfoldable pub canonical_parsed : Option Time → Text
  canonical_parsed none = unknown_value
  canonical_parsed (some parsed) = times.format_utc parsed

  unfoldable pub canonical_time : Text → Text
  canonical_time value =
      if value =ᵗ unknown_value then unknown_value else canonical_parsed (times.parse_rfc3339 value)

  unfoldable pub copyright_text : Text → Text
  copyright_text source_time = elim (times.parse_rfc3339 source_time) [
    | none ↦ codes "Copyright © " ++ copyright_holder
    | some parsed ↦ codes "Copyright © " ++ times.year_text parsed ++ codes " " ++ copyright_holder
  ]

  -- applyVCSFallback; `explicit` is the linker's `modified`.
  unfoldable pub apply_vcs_fallback : Text → List (Text × Text) → Info → Info
  apply_vcs_fallback explicit settings info = record info {
    commit = vcs_commit settings info.commit;
    source_time =
        if info.source_time =ᵗ unknown_value
        then canonical_time
            (value_or_default (setting_value settings (codes "vcs.time") []) unknown_value)
        else info.source_time;
    modified =
        vcs_modified (parse_setting explicit)
          (parse_setting (setting_value settings (codes "vcs.modified") [])) info.modified;
  }

  unfoldable pub with_settings : Text → Option (List (Text × Text)) → Info → Info
  with_settings explicit none info = info
  with_settings explicit (some settings) info = apply_vcs_fallback explicit settings info

  -- Get, after the build information has been applied.
  unfoldable pub complete_info : Text → Info → Info
  complete_info explicit info = record info {
    file_version =
        if info.file_version =ᵗ []
        then mapped_or_default (windows_file_version info.version)
        else info.file_version;
    modified = modified_or (parse_setting explicit) info.modified;
    copyright = copyright_text info.source_time;
  }

  unfoldable pub get : Linked → Runtime → Info
  get linked rt = complete_info linked.modified (
      with_settings linked.modified rt.build_settings (record {
        product_name = codes "FlashGate MCP";
        binary_name = codes "flashgate-mcp";
        version = value_or_default linked.version default_version;
        file_version = trim_space linked.file_version;
        commit = value_or_default linked.commit unknown_value;
        source_time = canonical_time (value_or_default linked.date unknown_value);
        modified = false;
        go_version = rt.go_version;
        goos = rt.goos;
        goarch = rt.goarch;
        public_arch = public_architecture rt.goarch;
        copyright = [];
        build_manifest = linked.build_manifest;
      }))

-- Info.String
unfoldable pub info_string : Info → Text
info_string info = info.binary_name ++ codes " " ++ info.version

-- Info.VerboseString, line by line.
unfoldable pub verbose_line : Text → Text → Text
verbose_line label value = label ++ value ++ 10 ∷ []

abbrev pub flag_text : Bool → Text
flag_text true = codes "true"
flag_text false = codes "false"

unfoldable pub verbose_string : Info → Text
verbose_string info =
    verbose_line (codes "Product:      ") info.product_name
    ++ verbose_line (codes "Version:      ") info.version
    ++ verbose_line (codes "File version: ") info.file_version
    ++ verbose_line (codes "Commit:       ") info.commit
    ++ verbose_line (codes "Source time:  ") info.source_time
    ++ verbose_line (codes "Modified:     ") (flag_text info.modified)
    ++ verbose_line (codes "Go version:   ") info.go_version
    ++ verbose_line (codes "Platform:     ") (info.goos ++ codes "/" ++ info.public_arch)
    ++ codes "Go target:    "
    ++ info.goos
    ++ codes "/"
    ++ info.goarch

unfoldable pub first_bytes : ℕ → Bytes → Bytes
first_bytes zero bytes = []
first_bytes (suc n) [] = []
first_bytes (suc n) (b ∷ bytes) = b ∷ first_bytes n bytes

-- Info.ShortCommit, on the commit's UTF-8 bytes.
unfoldable pub short_commit : Info → Bytes
short_commit info =
    let bytes = bytes_of info.commit in
    if leb (length bytes) 12 then bytes else first_bytes 12 bytes

-- The errors of SourceTimeFromEpoch.
pub data EpochError : Type 0 where
  epoch_empty epoch_not_digits epoch_out_of_range : EpochError

-- strconv.ParseInt(value, 10, 64) on digits, and the largest epoch.
unfoldable pub epoch_in_range : Option ℕ → Option ℕ
epoch_in_range none = none
epoch_in_range (some epoch) = if leb epoch 253_402_300_799 then some epoch else none

-- SourceTimeFromEpoch; `format_unix` is time.Unix(epoch, 0) in UTC as RFC 3339.
unfoldable pub source_time_from_epoch : (ℕ → Text) → Text → EpochError ⊎ Text
source_time_from_epoch format_unix value =
    if value =ᵗ []
    then inl epoch_empty
    else if not (all_digits value)
    then inl epoch_not_digits
    else elim (epoch_in_range (digits_after 0 value)) [
      | none ↦ inl epoch_out_of_range
      | some epoch ↦ inr (format_unix epoch)
    ]

-- ===== src/Version/Named.antt =====
-- version.go, Get: which of the reported names are always there.
use fileserver_mcp.Base.{
  [], ◌∷◌, ◌++◌, List, Text, codes, ◌=ᵗ◌, trim_space, false, Option, none, some, ◌≡◌, ◌≢◌, inl, inr,
  refl, sym, ◌∙◌, Bool-cases,
}
use fileserver_mcp.Version.{Versioned, valid, invalid, windows_file_version}
use fileserver_mcp.Version.FileVersion.{core_text, windows_file_version-Mapped}
use fileserver_mcp.Version.Identity.{
  Linked, Runtime, Times, Info, unknown_value, value_or_default, vcs_commit, apply_vcs_fallback,
  with_settings, mapped_or_default, complete_info, get,
}

-- The names that a user is shown are there.
pub record IsNamed (info : Info) : Type 0 where
  pub version_named : info.version ≢ []
  pub file_version_named : info.file_version ≢ []
  pub commit_named : info.commit ≢ []

eq_empty-false : (s : Text) → (s =ᵗ []) ≡ false → s ≢ []
unfolding ◌=ᵗ◌
eq_empty-false [] other empty = cc
eq_empty-false (c ∷ s) other empty = cc

value_or_default-named :
    (value fallback : Text) → fallback ≢ [] → value_or_default value fallback ≢ []
unfolding value_or_default
value_or_default-named value fallback named = elim (Bool-cases (trim_space value =ᵗ [])) [
  | inl empty ↦ rw (value_or_default, empty) named
  | inr other ↦ rw (value_or_default, other) (eq_empty-false (trim_space value) other)
]

append-named : (s t : Text) → t ≢ [] → s ++ t ≢ []
append-named [] t named empty = named empty
append-named (c ∷ s) t named empty = cc

mapped_or_default-named :
    (mapping : Versioned Text)
    → ((out : Text) → mapping ≡ valid out → out ≢ [])
    → mapped_or_default mapping ≢ []
unfolding mapped_or_default
mapped_or_default-named (valid out) named = named out refl
mapped_or_default-named (invalid e) named = λ h. cc

windows_file_version-named :
    (version out : Text) → windows_file_version version ≡ valid out → out ≢ []
windows_file_version-named version out h empty =
    append-named (core_text version) (codes ".0") (λ none_left. cc)
      (sym (windows_file_version-Mapped version h).keeps_core ∙ empty)

module _ {Time : Type 0} (times : Times Time) where
  vcs_commit-named :
      (commit : Text) (settings : List (Text × Text))
      → commit ≢ []
      → vcs_commit settings commit ≢ []
  unfolding vcs_commit
  vcs_commit-named commit settings named = elim (Bool-cases (commit =ᵗ unknown_value)) [
    | inl unknown ↦ rw (vcs_commit, unknown) (value_or_default-named _ unknown_value (λ h. cc))
    | inr known ↦ rw (vcs_commit, known) named
  ]

  complete_info-IsNamed :
      (explicit : Text) (info : Info)
      → info.version ≢ []
      → info.commit ≢ []
      → IsNamed (complete_info times explicit info)
  unfolding complete_info
  complete_info-IsNamed explicit info version commit = record {
    version_named = version;
    file_version_named = elim (Bool-cases (info.file_version =ᵗ [])) [
      | inl empty ↦
          rw (complete_info, empty)
            (mapped_or_default-named (windows_file_version info.version)
              (windows_file_version-named info.version))
      | inr given ↦ rw (complete_info, given) (eq_empty-false info.file_version given)
    ];
    commit_named = commit;
  }

  with_settings-IsNamed :
      (explicit : Text) (settings : Option (List (Text × Text))) (info : Info)
      → info.version ≢ []
      → info.commit ≢ []
      → IsNamed (complete_info times explicit (with_settings times explicit settings info))
  unfolding with_settings apply_vcs_fallback
  with_settings-IsNamed explicit none info version commit =
      complete_info-IsNamed explicit info version commit
  with_settings-IsNamed explicit (some settings) info version commit =
      complete_info-IsNamed explicit (apply_vcs_fallback times explicit settings info) version
        (vcs_commit-named info.commit settings commit)

  -- Whatever the linker and the build information leave unset, the identity names it: the version,
  -- the file version and the commit of Get are never empty.
  pub get-IsNamed : (linked : Linked) (rt : Runtime) → IsNamed (get times linked rt)
  unfolding get
  get-IsNamed linked rt =
      with_settings-IsNamed linked.modified rt.build_settings _
        (value_or_default-named linked.version (codes "0.0.0-dev") (λ h. cc))
        (value_or_default-named linked.commit unknown_value (λ h. cc))

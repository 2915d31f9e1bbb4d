-- ===== src/Tests/Builds.antt =====
-- The theorems on the version and on the benchmark's files, on concrete input.
use fileserver_mcp.Base.{[], ◌∷◌, Text, Bytes, codes, Option, some, ◌≡◌, true, ◌↔◌, inr, refl, pos}
use fileserver_mcp.Protocol.{Json, int, str, arr, obj, nil, cons, end, field}
use fileserver_mcp.Version
use fileserver_mcp.Version.{windows_file_version, invalid, invalid_semantic_version}
use fileserver_mcp.Version.FileVersion.{Mapped, windows_file_version-Mapped}
use fileserver_mcp.Version.Identity.{Times}
use fileserver_mcp.Version.Resource.{
  ResourceOptions, IsResource, resource_config, build_config, versioned_config, parsed_time,
  of_version, build_config-IsResource, build_config-bad_version,
}
use fileserver_mcp.Benchmark.Statistics.{MetricSummary, summarize}
use fileserver_mcp.Benchmark.Statistics.Ranks.{IsSummary, summarize-IsSummary}
use fileserver_mcp.Benchmark.StrictJson.{
  GoType, struct_of, slice_of, number_type, string_type, member, no_more,
}
use fileserver_mcp.Benchmark.StrictJson.Decoding.{
  decode_strict_json, IsRead, decode_strict_json-IsRead,
}

windows_file_version-Mapped_example : Mapped (codes "1.20.3-rc.1+b.07") (codes "1.20.3.0")
unfolding Version.runs
windows_file_version-Mapped_example = windows_file_version-Mapped (codes "1.20.3-rc.1+b.07") refl

summarize-IsSummary_example :
    (s : MetricSummary) × (summarize (7 ∷ 3 ∷ 9 ∷ []) ≡ some s) × IsSummary (7 ∷ 3 ∷ 9 ∷ []) s
summarize-IsSummary_example = summarize-IsSummary 7 (3 ∷ 9 ∷ [])

-- struct { Name string `json:"name"`; Counts []int `json:"counts,omitempty"` }
abbrev counted_type : GoType
counted_type = struct_of (
    member (codes "Name") (codes "name") string_type
      (member (codes "Counts") (codes "counts,omitempty") (slice_of number_type) no_more))

abbrev value : Json
value = obj (
    field (codes "name") (str (codes "a"))
      (field (codes "counts") (arr (cons (int (pos 3)) nil)) end))

abbrev parse : Bytes → Option Json
parse bytes = some value

abbrev fill : Json → Option Text
fill json = some (codes "a")

decode_strict_json-IsRead_example :
    (decode_strict_json (λ s. s) parse fill counted_type (1 ∷ []) ≡ inr (codes "a"))
    ↔ IsRead parse fill counted_type (1 ∷ []) (codes "a")
decode_strict_json-IsRead_example =
    decode_strict_json-IsRead (λ s. s) parse fill counted_type (1 ∷ []) (codes "a")

abbrev asked : ResourceOptions
asked = record {
  product_version = codes "1.20.3-rc.1+b.07";
  source_time = codes "2026-01-02T03:04:05Z";
  goarch = codes "arm64";
  output = codes "a.syso";
  icon = codes "a.ico";
}

abbrev times : Times Text
times = record {
  parse_rfc3339 = λ text. some text;
  format_utc = λ time. time;
  year_text = λ time. codes "2026";
}

abbrev unreadable : ResourceOptions
unreadable = record asked { product_version = codes "1.02.3" }

build_config-IsResource_example :
    IsResource times
      (λ time. time)
      (λ time. true)
      asked
      (resource_config times (λ time. time) (λ time. true) asked (codes "1.20.3.0") (1, 20, 3, 0))
unfolding Version.runs build_config versioned_config parsed_time of_version
build_config-IsResource_example =
    build_config-IsResource times (λ time. time) (λ time. true) asked refl

build_config-bad_version_example :
    windows_file_version unreadable.product_version ≡ invalid invalid_semantic_version
unfolding Version.runs build_config versioned_config parsed_time of_version
build_config-bad_version_example =
    build_config-bad_version times (λ time. time) (λ time. true) unreadable refl

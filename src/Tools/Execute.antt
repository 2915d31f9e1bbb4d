-- ===== src/Tools/Execute.antt =====
-- The tools of internal/mcp/tools and their execution, over the interface `FileSystem` of
-- internal/fs/filesystem.go.
use fileserver_mcp.Base.{
  ℕ, ◌+◌, [], ◌∷◌, ◌++◌, List, Text, Bytes, codes, length, Bool, false, not, ◌&&◌, ltb, ℤ,
  is_positive, gtb_ℤ, Option, none, some, if◌then◌else◌, Result, ok, err, Error, fs, not_found, ◌/◌,
  ◌%◌,
}
use fileserver_mcp.Os.{Os}
use fileserver_mcp.Fs.Limits.{LocalFileSystem, Entry, Metadata}
use fileserver_mcp.Fs.Reading
use fileserver_mcp.Fs.Writing
use fileserver_mcp.Fs.Moving
use fileserver_mcp.Protocol.{Json, RpcError, invalid_params_error}
use fileserver_mcp.Tools.Arguments.{
  strict_fields, string_argument, string_pointer_argument, bool_argument, int64_pointer_argument,
  is_non_blank,
}
use fileserver_mcp.Tools.Category.{map_filesystem_error}

pub record FileSystem (D : Type 0) : Type 0 where
  pub list : D → Text → Result (List Entry)
  pub read : D → Text → ℤ → Result Bytes
  pub stat : D → Text → Result Metadata
  pub write : D → Text → Bytes → Bool → Result (Unit {0}) × D
  pub mkdir : D → Text → Result Bool × D
  pub delete : D → Text → Bool → Result (Unit {0}) × D
  pub move : D → Text → Text → Bool → Result (Unit {0}) × D
  pub copy : D → Text → Text → Bool → Result (Unit {0}) × D

-- LocalFileSystem as a FileSystem; `drift` is what another process does during a Move.
abbrev pub local_file_system : {D : Type 0} → Os D → (D → D) → LocalFileSystem → FileSystem D
local_file_system os drift f = record {
  list = λ d path. Reading.list os d f path;
  read = λ d path max_bytes. Reading.read os d f path max_bytes;
  stat = λ d path. Reading.stat os d f path;
  write = λ d path content overwrite. Writing.write os d f path content overwrite;
  mkdir = λ d path. Writing.mkdir os d f path;
  delete = λ d path recursive. Writing.delete os d f path recursive;
  move = λ d source target overwrite. Moving.move os d drift f source target overwrite;
  copy = λ d source target overwrite. Writing.copy os d f source target overwrite;
}

-- A Go string's bytes: UTF-8.
unfoldable pub utf8 : ℕ → Bytes
utf8 c =
    if ltb c 0x80
    then c ∷ []
    else if ltb c 0x800
    then (0xc0 + c / 64) ∷ (0x80 + c % 64) ∷ []
    else if ltb c 0x10000
    then (0xe0 + c / 4096) ∷ (0x80 + c / 64 % 64) ∷ (0x80 + c % 64) ∷ []
    else (0xf0 + c / 262144) ∷ (0x80 + c / 4096 % 64) ∷ (0x80 + c / 64 % 64) ∷ (0x80 + c % 64) ∷ []

unfoldable pub bytes_of : Text → Bytes
bytes_of [] = []
bytes_of (c ∷ s) = utf8 c ++ bytes_of s

-- The result structs of the tools.
pub data ToolResult : Type 0 where
  listed : List Entry → ToolResult
  read_content : Bytes → ToolResult
  info_missing : Text → ToolResult
  info_found : Text → Metadata → ToolResult
  written : Text → ℕ → ToolResult
  created : Text → Bool → ToolResult
  deleted : Text → ToolResult
  copied : Text → Text → ToolResult
  moved : Text → Text → ToolResult

-- `(any, *protocol.Error)`
pub data Reply : Type 0 where
  done : ToolResult → Reply
  fails : RpcError → Reply

unfoldable pub failed : Error → Reply
failed e = fails (map_filesystem_error e)

unfoldable pub invalid : Reply
invalid = fails invalid_params_error

-- `if err != nil { return nil, mapFilesystemError(err) }`, and the result otherwise.
unfoldable pub reply_of {ℓ} : {A : Type ℓ} → Result A → (A → ToolResult) → Reply
reply_of (ok a) f = done (f a)
reply_of (err e) f = failed e

-- The limit of read_file: the server's, or a smaller one of the call.
unfoldable pub effective_max_bytes : ℤ → Option ℤ → Option ℤ
effective_max_bytes server_max none = some server_max
effective_max_bytes server_max (some asked) =
    if not (is_positive asked)
    then none
    else some (if gtb_ℤ asked server_max then server_max else asked)

-- The path of a tool whose only argument is one.
unfoldable pub only_path : Json → Option Text
only_path raw = elim (strict_fields (codes "path" ∷ []) raw) [
  | none ↦ none
  | some fields ↦ elim (string_argument (codes "path") [] fields) [
    | none ↦ none
    | some path ↦ if is_non_blank path then some path else none
  ]
]

-- What get_path_info makes of the metadata: a missing path is an answer, and no failure.
unfoldable pub path_info : Text → Result Metadata → Reply
path_info path (ok metadata) = done (info_found path metadata)
path_info path (err (fs not_found)) = done (info_missing path)
path_info path (err e) = failed e

-- The source, the target and the overwrite flag of copy_path and move_path.
unfoldable pub two_paths : Json → Option (Text × Text × Bool)
two_paths raw =
    elim (strict_fields (codes "source" ∷ codes "target" ∷ codes "overwrite" ∷ []) raw) [
      | none ↦ none
      | some fields ↦ elim (string_argument (codes "source") [] fields) [
        | none ↦ none
        | some source ↦ elim (string_argument (codes "target") [] fields) [
          | none ↦ none
          | some target ↦ elim (bool_argument (codes "overwrite") false fields) [
            | none ↦ none
            | some overwrite ↦
                if is_non_blank source && is_non_blank target
                then some (source, target, overwrite)
                else none
          ]
        ]
      ]
    ]

module _ {D : Type 0} (filesystem : FileSystem D) (d : D) where
  unfoldable pub list_directory : Json → Reply × D
  list_directory raw = elim (strict_fields (codes "path" ∷ []) raw) [
    | none ↦ (invalid, d)
    | some fields ↦ elim (string_pointer_argument (codes "path") none fields) [
      | none ↦ (invalid, d)
      | some none ↦ (reply_of (filesystem.list d (codes ".")) listed, d)
      | some (some path) ↦
          if not (is_non_blank path)
          then (invalid, d)
          else (reply_of (filesystem.list d path) listed, d)
    ]
  ]

  unfoldable pub read_file : ℤ → Json → Reply × D
  read_file server_max raw = elim (strict_fields (codes "path" ∷ codes "maxbytes" ∷ []) raw) [
    | none ↦ (invalid, d)
    | some fields ↦ elim (string_argument (codes "path") [] fields) [
      | none ↦ (invalid, d)
      | some path ↦ elim (int64_pointer_argument (codes "maxbytes") none fields) [
        | none ↦ (invalid, d)
        | some asked ↦
            if not (is_non_blank path)
            then (invalid, d)
            else elim (effective_max_bytes server_max asked) [
              | none ↦ (invalid, d)
              | some max_bytes ↦ (reply_of (filesystem.read d path max_bytes) read_content, d)
            ]
      ]
    ]
  ]

  unfoldable pub get_path_info : Json → Reply × D
  get_path_info raw = elim (only_path raw) [
    | none ↦ (invalid, d)
    | some path ↦ (path_info path (filesystem.stat d path), d)
  ]

  unfoldable pub write_file : Json → Reply × D
  write_file raw =
      elim (strict_fields (codes "path" ∷ codes "content" ∷ codes "overwrite" ∷ []) raw) [
        | none ↦ (invalid, d)
        | some fields ↦ elim (string_argument (codes "path") [] fields) [
          | none ↦ (invalid, d)
          | some path ↦ elim (string_argument (codes "content") [] fields) [
            | none ↦ (invalid, d)
            | some content ↦ elim (bool_argument (codes "overwrite") false fields) [
              | none ↦ (invalid, d)
              | some overwrite ↦
                  if not (is_non_blank path)
                  then (invalid, d)
                  else let (r, d') = filesystem.write d path (bytes_of content) overwrite in
                    (reply_of r (λ _. written path (length (bytes_of content))), d')
            ]
          ]
        ]
      ]

  unfoldable pub create_directory : Json → Reply × D
  create_directory raw = elim (only_path raw) [
    | none ↦ (invalid, d)
    | some path ↦ let (r, d') = filesystem.mkdir d path in (reply_of r (created path), d')
  ]

  unfoldable pub delete_path : Json → Reply × D
  delete_path raw = elim (strict_fields (codes "path" ∷ codes "recursive" ∷ []) raw) [
    | none ↦ (invalid, d)
    | some fields ↦ elim (string_argument (codes "path") [] fields) [
      | none ↦ (invalid, d)
      | some path ↦ elim (bool_argument (codes "recursive") false fields) [
        | none ↦ (invalid, d)
        | some recursive ↦
            if not (is_non_blank path)
            then (invalid, d)
            else let (r, d') = filesystem.delete d path recursive in
              (reply_of r (λ _. deleted path), d')
      ]
    ]
  ]

  unfoldable pub copy_path : Json → Reply × D
  copy_path raw = elim (two_paths raw) [
    | none ↦ (invalid, d)
    | some (source, target, overwrite) ↦
        let (r, d') = filesystem.copy d source target overwrite in
        (reply_of r (λ _. copied source target), d')
  ]

  unfoldable pub move_path : Json → Reply × D
  move_path raw = elim (two_paths raw) [
    | none ↦ (invalid, d)
    | some (source, target, overwrite) ↦
        let (r, d') = filesystem.move d source target overwrite in
        (reply_of r (λ _. moved source target), d')
  ]

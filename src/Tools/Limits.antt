-- ===== src/Tools/Limits.antt =====
-- tool_read_file.go: the limit on what read_file returns.
use fileserver_mcp.Base.{
  ℕ, [], ◌∷◌, Text, Bytes, codes, length, false, ℤ, pos, negsuc, exceeds, Option, none, some,
  Result, ok, err, ◌≡◌, refl, sym, ap, subst, Bool-cases, Option-cases, inl, inr, arith,
}
use fileserver_mcp.Os.{Os}
use fileserver_mcp.Fs.Limits.{LocalFileSystem}
use fileserver_mcp.Fs.Reading.Bounds.{SizesAgree, read-le-max_bytes}
use fileserver_mcp.Protocol.{Json}
use fileserver_mcp.Tools.Arguments.{
  strict_fields, string_argument, int64_pointer_argument, is_non_blank,
}
use fileserver_mcp.Tools.Execute.{
  FileSystem, local_file_system, read_content, Reply, done, failed, invalid, reply_of,
  effective_max_bytes, read_file,
}

-- The call's limit allows no more than the server's.
effective_max_bytes-le :
    (n : ℕ) (server_max : ℤ) (asked : Option ℤ) (m : ℤ)
    → effective_max_bytes server_max asked ≡ some m
    → exceeds n m ≡ false
    → exceeds n server_max ≡ false
unfolding effective_max_bytes
effective_max_bytes-le n server_max none m h e = same m h e
  where
    value : Option ℤ → ℤ
    value none = server_max
    value (some m) = m

    same : (m : ℤ) → some server_max ≡ some m → exceeds n m ≡ false → exceeds n server_max ≡ false
    same m h e = subst (λ x. exceeds n x ≡ false) (sym (ap value h)) e
effective_max_bytes-le n (pos s) (some (pos a)) m h e = ground arith
effective_max_bytes-le n (negsuc s) (some (pos a)) m h e = ground arith
effective_max_bytes-le n server_max (some (negsuc a)) m h e = cc

-- A content that the reply carries is within the limit.
pub Within : ℤ → Reply → Type 0
Within max (done (read_content content)) = exceeds (length content) max ≡ false
Within max _ = Unit

module _ {D : Type 0} (filesystem : FileSystem D) (d : D) (server_max : ℤ) where
  reply_of-Within :
      (r : Result Bytes)
      → ((content : Bytes) → r ≡ ok content → exceeds (length content) server_max ≡ false)
      → Within server_max (reply_of r read_content)
  unfolding Within reply_of failed
  reply_of-Within (ok content) h = h content refl
  reply_of-Within (err e) h = tt

  read_file-Within_of :
      (raw : Json)
      → ((path : Text) (max : ℤ) (content : Bytes)
          → filesystem.read d path max ≡ ok content
          → exceeds (length content) max ≡ false)
      → Within server_max (read_file filesystem d server_max raw).0
  unfolding Within invalid read_file
  read_file-Within_of raw law =
      elim (Option-cases (strict_fields (codes "path" ∷ codes "maxbytes" ∷ []) raw)) [
        | inl bad ↦ rw (read_file, bad) tt
        | inr (fields, strict) ↦ elim (Option-cases (string_argument (codes "path") [] fields)) [
          | inl bad ↦ rw (read_file, strict, bad) tt
          | inr (path, named) ↦
              elim (Option-cases (int64_pointer_argument (codes "maxbytes") none fields)) [
                | inl bad ↦ rw (read_file, strict, named, bad) tt
                | inr (asked, given) ↦ elim (Bool-cases (is_non_blank path)) [
                  | inr blank ↦ rw (read_file, strict, named, given, blank) tt
                  | inl solid ↦ elim (Option-cases (effective_max_bytes server_max asked)) [
                    | inl bad ↦ rw (read_file, strict, named, given, solid, bad) tt
                    | inr (m, effective) ↦
                        rw (read_file, strict, named, given, solid, effective)
                          (reply_of-Within (filesystem.read d path m) (λ content r.
                            effective_max_bytes-le (length content) server_max asked m effective
                              (law path m content r)))
                  ]
                ]
              ]
        ]
      ]

-- A content that read_file returns is no longer than the server's limit, whatever limit the call
-- asks for, where os.Stat and os.ReadFile agree on sizes.
pub read_file-Within :
    {D : Type 0} (os : Os D) (drift : D → D) (f : LocalFileSystem) (d : D) (server_max : ℤ)
    (raw : Json)
    → SizesAgree os d f
    → Within server_max (read_file (local_file_system os drift f) d server_max raw).0
read_file-Within os drift f d server_max raw agree =
    read_file-Within_of (local_file_system os drift f) d server_max raw
      (λ path m content r. (read-le-max_bytes os d f agree path m r).0)

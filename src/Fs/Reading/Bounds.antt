-- ===== src/Fs/Reading/Bounds.antt =====
-- What List and Read give stays within the limits.
use mathlib.Core.List.{append-nil, append_assoc}
use fileserver_mcp.Base.{
  ◌≡◌, sym, ◌∙◌, subst, Text, Bytes, List, [], ◌∷◌, ◌++◌, length, length-append, true, false, not,
  arith, ℤ, pos, exceeds, exceeds-zero, reaches, is_positive, ok, >>=-eq-ok, fail_if-eq-ok_any, inl,
  inr, Bool-cases,
}
use fileserver_mcp.Os.{Os, DirEntry, FileInfo}
use fileserver_mcp.Security.Guard.{SafePath, resolve_existing, allow_list_entry}
use fileserver_mcp.Fs.Limits.{LocalFileSystem, Entry}
use fileserver_mcp.Fs.Reading.{list_entries, list, read}

module _ {D : Type 0} (os : Os D) (d : D) (f : LocalFileSystem) (safe_path : SafePath) where
  -- The entry as List reports it.
  abbrev entry_of : DirEntry → FileInfo → Entry
  entry_of e info = record { name = e.name; is_dir = e.is_dir; size = info.size }

  -- The entries were reported for a part of the directory's entries, in its order: those that the
  -- guard exposes, with the sizes that the operating system gives.
  pub data Reports : List DirEntry → List Entry → Type 0 where
    none_left : Reports [] []
    hidden :
        {e : DirEntry} {es : List DirEntry} {out : List Entry}
        → allow_list_entry os d f.guard safe_path e.name ≡ ok false
        → Reports es out
        → Reports (e ∷ es) out
    shown :
        {e : DirEntry} {es : List DirEntry} {out : List Entry} (info : FileInfo)
        → allow_list_entry os d f.guard safe_path e.name ≡ ok true
        → e.info ≡ ok info
        → Reports es out
        → Reports (e ∷ es) (entry_of e info ∷ out)

  -- What the loop still has to report, and how many entries there are at its end.
  record Outcome (result : List Entry) (es : List DirEntry) (out : List Entry) : Type 0 where
    more : List Entry
    split : out ≡ result ++ more
    reports : Reports es more
    within : exceeds (length out) f.limits.max_list_entries ≡ false

  Outcome_shown :
      (result : List Entry) (e : DirEntry) (es : List DirEntry) (info : FileInfo) {out : List Entry}
      → allow_list_entry os d f.guard safe_path e.name ≡ ok true
      → e.info ≡ ok info
      → Outcome (result ++ entry_of e info ∷ []) es out
      → Outcome result (e ∷ es) out
  Outcome_shown result e es info a i o = record {
    more = entry_of e info ∷ o.more;
    split = o.split ∙ append_assoc result (entry_of e info ∷ []) o.more;
    reports = shown info a i o.reports;
    within = o.within;
  }

  Outcome_hidden :
      (result : List Entry) (e : DirEntry) (es : List DirEntry) {out : List Entry}
      → allow_list_entry os d f.guard safe_path e.name ≡ ok false
      → Outcome result es out
      → Outcome result (e ∷ es) out
  Outcome_hidden result e es a o = record {
    more = o.more;
    split = o.split;
    reports = hidden a o.reports;
    within = o.within;
  }

  -- One more entry fits where the limit is not reached.
  room :
      (result : List Entry) (x : Entry) (limit : ℤ)
      → reaches (length result) limit ≡ false
      → exceeds (length (result ++ x ∷ [])) limit ≡ false
  room result x (pos m) h = ground (arith, length-append result (x ∷ []))
  room result x (ℤ.negsuc m) h = cc

  list_entries-Outcome :
      (result : List Entry) (es : List DirEntry) {out : List Entry}
      → exceeds (length result) f.limits.max_list_entries ≡ false
      → list_entries os d f safe_path result es ≡ ok out
      → Outcome result es out
  unfolding list_entries
  list_entries-Outcome result [] {out} w h = record {
    more = [];
    split = ground (arith, append-nil result);
    reports = none_left;
    within = ground arith;
  }
  list_entries-Outcome result (e ∷ es) {out} w h =
      let (allowed, a, h1) = >>=-eq-ok (allow_list_entry os d f.guard safe_path e.name) _ h in
      elim (Bool-cases allowed) [
        | inl yes_allowed ↦
            let h2 = rw yes_allowed at h1 in
            let (below, h3) =
              fail_if-eq-ok_any (reaches (length result) f.limits.max_list_entries) _ _ h2 in
            let (info, i, h4) = >>=-eq-ok e.info _ h3 in
            Outcome_shown result e es info (rw yes_allowed at a) i (
              list_entries-Outcome (result ++ entry_of e info ∷ []) es
                (room result (entry_of e info) f.limits.max_list_entries below) h4)
        | inr not_allowed ↦
            Outcome_hidden result e es (rw not_allowed at a)
              (list_entries-Outcome result es w (rw not_allowed at h1))
      ]

module _ {D : Type 0} (os : Os D) (d : D) (f : LocalFileSystem) where
  -- What List returns for `path`.
  pub record Listing (path : Text) (out : List Entry) : Type 0 where
    pub safe_path : SafePath
    pub resolved : resolve_existing os d f.guard path ≡ ok safe_path
    pub dir_entries : List DirEntry
    pub entries : os.read_dir d safe_path.path ≡ ok dir_entries
    pub reports : Reports os d f safe_path dir_entries out
    pub within : exceeds (length out) f.limits.max_list_entries ≡ false

  -- List reports exactly the exposed entries of the directory, in its order and with their sizes, and
  -- at most as many as the limit, where the limit is positive.
  pub list-Listing :
      (path : Text) {out : List Entry}
      → is_positive f.limits.max_list_entries ≡ true
      → list os d f path ≡ ok out
      → Listing path out
  unfolding list
  list-Listing path {out} positive h =
      let (safe_path, resolved, h1) = >>=-eq-ok (resolve_existing os d f.guard path) _ h in
      let (dir_entries, entries, h2) = >>=-eq-ok (os.read_dir d safe_path.path) _ h1 in
      let o =
        list_entries-Outcome os d f safe_path [] dir_entries
          (exceeds-zero f.limits.max_list_entries positive) h2 in
      record {
        safe_path = safe_path;
        resolved = resolved;
        dir_entries = dir_entries;
        entries = entries;
        reports = subst (Reports os d f safe_path dir_entries) (sym o.split) o.reports;
        within = o.within;
      }

  -- os.Stat reports the number of bytes that os.ReadFile reads.
  abbrev pub SizesAgree : Type 0
  SizesAgree =
      (p : Text) (info : FileInfo) (content : Bytes)
      → os.stat d p ≡ ok info
      → os.read_file d p ≡ ok content
      → length content ≡ info.size

  -- Read returns at most `max_bytes` bytes, the content of a file whose path ResolveExisting accepts,
  -- where os.Stat and os.ReadFile agree on sizes.
  pub read-le-max_bytes :
      SizesAgree
      → (path : Text) (max_bytes : ℤ) {content : Bytes} → read os d f path max_bytes ≡ ok content
      → (exceeds (length content) max_bytes ≡ false)
        × ((s : SafePath) × (resolve_existing os d f.guard path ≡ ok s)
            × (os.read_file d s.path ≡ ok content))
  unfolding read
  read-le-max_bytes agree path max_bytes {content} h =
      let (s, resolved, h1) = >>=-eq-ok (resolve_existing os d f.guard path) _ h in
      let (info, found, h2) = >>=-eq-ok (os.stat d s.path) _ h1 in
      let (plain, h3) = fail_if-eq-ok_any info.is_dir _ _ h2 in
      let (positive, h4) = fail_if-eq-ok_any (not (is_positive max_bytes)) _ _ h3 in
      let (fits, h5) = fail_if-eq-ok_any (exceeds info.size max_bytes) _ _ h4 in
      (rw (agree s.path info content found h5) fits, (s, resolved, h5))

-- ===== src/Asar/Image.antt =====
-- The bytes of an archive of internal/asar/archive.go: `Write`, `Open` and `ReadFile`. The encoder
-- of the header, `json.Marshal`, is a parameter, and so is its decoder. A file on the disk is its
-- bytes; the errors of the disk are left out.
pub mod Opening
pub mod RoundTrip
pub mod Refused
use golectron.Prelude.{
  ℕ, zero, suc, ◌+◌, ◌-◌, ◌≤◌, ℤ, pos, negsuc, is_negative, Bool, true, false, not, ◌&&◌, ◌||◌,
  Option, none, some, List, [], ◌∷◌, ◌++◌, Outcome, ok, err, length, take, drop, ltb, leb, ◌==◌,
  if◌then◌else◌,
}
use golectron.Text.{Text, codes}
use golectron.Dict.{Dict, empty, put}
use golectron.FilePath.{slash, join_elements}
use golectron.Asar.Pickle.{
  zeros, write_pickle_uint32, write_pickle_string, read_pickle_uint32, read_pickle_string,
  PickleError, then_read,
}
use golectron.Asar.Paths.{
  AsarError, entry_not_found, entry_unpacked, entry_offset, directory, Entry, normalize_inner_path,
  normalize_entry, normalize_archive_path, unpacked_target,
}
use golectron.Asar.Header.{
  WriteNode, file, folder, WriteFields, end, Added, added, refused, panics, add_header_write_file,
  HeaderEntry, parse_header_entries,
}

-- A file to be written: its name, with its bytes.
abbrev pub File : Type 0
File = Text × List ℕ

-- What `Write` has built so far: the root's fields and the contents.
pub record Built : Type 0 where
  pub fields : WriteFields
  pub content : List ℕ

pub data WriteResult (A : Type 0) : Type 0 where
  written : A → WriteResult A
  write_error : AsarError → WriteResult A
  write_panic : WriteResult A

abbrev after_added : {A : Type 0} → Added → (WriteFields → WriteResult A) → WriteResult A
after_added (added fields) k = k fields
after_added (refused e) k = write_error e
after_added panics k = write_panic

-- The first loop of `Write`, over the packed files in the order of their names.
unfoldable pub pack_files : List File → Built → WriteResult Built
pack_files [] b = written b
pack_files ((name, bytes) ∷ files) b =
    after_added
      (add_header_write_file name (file (some (length b.content)) (length bytes) false) b.fields)
      (λ fields. pack_files files (record { fields = fields; content = b.content ++ bytes }))

-- The second loop, over the files that stay outside, with the files it writes there.
pub unpack_files :
    Text → List File → WriteFields → List File → WriteResult (WriteFields × List File)
unpack_files archive [] fields outside = written (fields, outside)
unpack_files archive ((name, bytes) ∷ files) fields outside =
    after_added (add_header_write_file name (file none (length bytes) true) fields) (λ more.
      unpack_files archive files more
        (outside ++ (unpacked_target archive (normalize_inner_path name), bytes) ∷ []))

-- The bytes of the archive, from its encoded header and its contents.
pub image : List ℕ → List ℕ → List ℕ
image header content =
    let pickle = write_pickle_string header in
    write_pickle_uint32 (length pickle) ++ (pickle ++ content)

abbrev after_result : {A B : Type 0} → WriteResult A → (A → WriteResult B) → WriteResult B
after_result (written a) k = k a
after_result (write_error e) k = write_error e
after_result write_panic k = write_panic

-- `Write`, with the files that stand on the disk after it, the archive last.
pub write : (WriteNode → List ℕ) → Text → List File → List File → WriteResult (List File)
write encode raw packed unpacked = elim (normalize_archive_path raw) [
  | err e ↦ write_error e
  | ok path ↦ after_result (pack_files packed (record { fields = end; content = [] })) (λ b.
      after_result (unpack_files path unpacked b.fields [])
        (λ r. written (r.1 ++ (path, image (encode (folder r.0)) b.content) ∷ [])))
]

pub data OpenError : Type 0 where
  header_short header_size : OpenError
  bad_pickle : PickleError → OpenError
  bad_path bad_header : AsarError → OpenError
  bad_json : OpenError

-- What `Open` finds before it decodes the header: the header's text, and where the contents begin.
pub open_image : List ℕ → Option (Outcome OpenError (List ℕ × ℕ))
open_image bytes =
    if ltb (length bytes) 8
    then some (err header_short)
    else then_read (read_pickle_uint32 (take 8 bytes)) (λ r. elim r [
      | err e ↦ some (err (bad_pickle e))
      | ok size ↦
          if size == 0 || ltb (length bytes - 8) size
          then some (err header_size)
          else then_read (read_pickle_string (take size (drop 8 bytes))) (λ s. elim s [
            | err e ↦ some (err (bad_pickle e))
            | ok header ↦ some (ok (header, 8 + size))
          ])
    ])

-- `ReadAt` into a new buffer: what stands there, and zeros from the end of the file on.
pub read_at : List ℕ → ℕ → ℕ → List ℕ
read_at bytes offset size =
    let found = take size (drop offset bytes) in found ++ zeros (size - length found)

pub record Archive : Type 0 where
  pub path : Text
  pub header_size : ℕ
  pub content_base : ℕ
  pub entries : Dict Entry

-- The loop of `NewArchive` and of `Open` over the entries.
pub add_entries : List Entry → Dict Entry → Outcome AsarError (Dict Entry)
add_entries [] entries = ok entries
add_entries (e ∷ es) entries = elim (normalize_entry e) [
  | err x ↦ err x
  | ok n ↦ add_entries es (put n.path n entries)
]

pub new_archive : Text → List Entry → Outcome AsarError Archive
new_archive raw es = elim (normalize_archive_path raw) [
  | err e ↦ err e
  | ok path ↦ elim (add_entries es empty) [
    | err e ↦ err e
    | ok entries ↦ ok (record { path = path; header_size = 0; content_base = 0; entries = entries })
  ]
]

pub stat : Text → Archive → Outcome AsarError Entry
stat inner_path a = elim (a.entries (normalize_inner_path inner_path)) [
  | none ↦ err entry_not_found
  | some e ↦ ok e
]

-- The end of `Open`, from the header's text and where the contents begin.
abbrev pub archive_of :
    (List ℕ → Option HeaderEntry) → Text → List ℕ → ℕ → Outcome OpenError Archive
archive_of decode path header base = elim (decode header) [
  | none ↦ err bad_json
  | some root ↦ elim (parse_header_entries root) [
    | err e ↦ err (bad_header e)
    | ok es ↦ elim (add_entries es empty) [
      | err e ↦ err (bad_header e)
      | ok entries ↦
          ok
            (record { path = path; header_size = base - 8; content_base = base; entries = entries })
    ]
  ]
]

-- `Open`, of a file with the given bytes.
pub open_archive :
    (List ℕ → Option HeaderEntry) → Text → List ℕ → Option (Outcome OpenError Archive)
open_archive decode raw bytes = elim (normalize_archive_path raw) [
  | err e ↦ some (err (bad_path e))
  | ok path ↦ then_read (open_image bytes) (λ r. elim r [
    | err e ↦ some (err e)
    | ok (header, base) ↦ some (archive_of decode path header base)
  ])
]

abbrev natural : ℤ → ℕ
natural (pos n) = n
natural (negsuc n) = 0

-- `ReadFile`, of an archive with the given bytes; `beside` are the files on the disk.
pub read_file :
    (Text → Outcome AsarError (List ℕ)) → List ℕ → Text → Archive → Outcome AsarError (List ℕ)
read_file beside bytes inner_path a = elim (stat inner_path a) [
  | err e ↦ err e
  | ok e ↦
      if e.dir
      then err directory
      else if e.unpacked
      then beside (unpacked_target a.path e.path)
      else if is_negative e.offset
      then err entry_offset
      else ok (read_at bytes (a.content_base + natural e.offset) (natural e.size))
]

-- The loop of `ResolveModule`, over the candidates that are left.
pub resolve_candidates : List Text → Archive → Outcome AsarError Entry
resolve_candidates [] a = err entry_not_found
resolve_candidates (candidate ∷ rest) a =
    let later = resolve_candidates rest a in
    elim (a.entries candidate) [
      | none ↦ later
      | some e ↦ if e.dir then later else if e.unpacked then err entry_unpacked else ok e
    ]

pub resolve_module : Text → Archive → Outcome AsarError Entry
resolve_module specifier a =
    let name = normalize_inner_path specifier in
    resolve_candidates
      (name
        ∷ (name ++ codes ".js")
        ∷ (name ++ codes ".json")
        ∷ join_elements (name ∷ codes "index.js" ∷ [])
        ∷ [])
      a

pub copy_file_source : Text → Archive → Outcome AsarError Text
copy_file_source inner_path a = elim (stat inner_path a) [
  | err e ↦ err e
  | ok e ↦
      if e.dir
      then err directory
      else ok (if e.unpacked then unpacked_target a.path e.path else a.path ++ slash ∷ e.path)
]

-- ===== src/Asar/Image/RoundTrip.antt =====
-- What `Write` of internal/asar/archive.go puts into an archive is what `Open` and `ReadFile` find.
use golectron.Prelude.{
  Outcome, pos, All, ℕ, ◌+◌, ◌^◌, ◌<◌, ◌≡◌, ◌≢◌, ◌⊎◌, inl, inr, refl, sym, ap, ◌∙◌, subst, false,
  some, List, [], ◌∷◌, ◌++◌, append_assoc, append-nil, ok, length, length-append, arith,
}
use golectron.Text.{Text}
use golectron.Asar.Pickle.{write_pickle_uint32, write_pickle_string}
use golectron.Asar.Pickle.RoundTrip.{length-write_pickle_uint32}
use golectron.Dict.{Dict, put, get-put_self}
use golectron.Asar.Paths.{AsarError, Entry, normalize_inner_path}
use golectron.Asar.Header.Kept.{IsFile}
use golectron.Asar.Header.Named.{find_at, Spares, find_at-add_header_write_file, find_at_kept}
use golectron.Asar.Header.{
  WriteNode, file, WriteFields, Added, added, refused, panics, add_header_write_file,
}
use golectron.Asar.Image.{
  File, Built, WriteResult, written, after_added, pack_files, image, open_image, read_at, Archive,
  stat, read_file,
}
use golectron.Asar.Image.Opening.{read_at-middle, open_image-image}

-- A result with contents that begin with the given ones.
record Extends (content : List ℕ) (c : Built) : Type 0 where
  more : List ℕ
  extends : c.content ≡ content ++ more

same_built : {b c : Built} → Path (WriteResult Built) (written b) (written c) → b ≡ c
same_built e = cc e

added-cases :
    (r : Added)
    → ((fields : WriteFields) × (r ≡ added fields))
      ⊎ ((c : Built) (k : WriteFields → WriteResult Built) → after_added r k ≢ written c)
added-cases (added fields) = inl (fields, refl)
added-cases (refused e) = inr (λ c k x. cc x)
added-cases panics = inr (λ c k x. cc x)

pack_nothing : (b : Built) → pack_files [] b ≡ written b
unfolding pack_files
pack_nothing b = refl

-- One round of the loop.
record PacksFirst (name : Text) (bytes : List ℕ) (files : List File) (b c : Built) : Type 0 where
  fields : WriteFields
  adds :
      add_header_write_file name (file (some (length b.content)) (length bytes) false) b.fields
      ≡ added fields
  packs : pack_files files (record { fields = fields; content = b.content ++ bytes }) ≡ written c

pack_files-first :
    (name : Text) (bytes : List ℕ) (files : List File) (b c : Built)
    → pack_files ((name, bytes) ∷ files) b ≡ written c
    → PacksFirst name bytes files b c
unfolding pack_files
pack_files-first name bytes files b c e =
    let node = file (some (length b.content)) (length bytes) false in
    elim (added-cases (add_header_write_file name node b.fields)) [
      | inl (fields, f) ↦ record {
        fields = fields;
        adds = f;
        packs =
            sym (
              ap
                (λ r.
                  after_added r
                    (λ g. pack_files files (record { fields = g; content = b.content ++ bytes })))
                f)
            ∙ e;
      }
      | inr refuses ↦ absurd (refuses c _ e)
    ]

pack_files-Extends :
    (files : List File) (b c : Built) → pack_files files b ≡ written c → Extends b.content c
pack_files-Extends [] b c e = record {
  more = [];
  extends =
      sym (ap (λ (d : Built). d.content) (same_built (sym (pack_nothing b) ∙ e)))
      ∙ sym (append-nil b.content);
}
pack_files-Extends ((name, bytes) ∷ files) b c e =
    let first = pack_files-first name bytes files b c e in
    let rest =
      pack_files-Extends files (record { fields = first.fields; content = b.content ++ bytes }) c
        first.packs in
    record {
      more = bytes ++ rest.more;
      extends = rest.extends ∙ append_assoc b.content bytes rest.more;
    }

-- The entry of a packed file.
abbrev packed_entry : Text → ℕ → ℕ → Entry
packed_entry name offset size = record {
  path = normalize_inner_path name;
  offset = pos offset;
  size = pos size;
  mode = 0;
  dir = false;
  unpacked = false;
}

-- An opened archive in which the file has that entry, among any others.
abbrev opened : Text → List ℕ → Text → Entry → Dict Entry → Archive
opened path header name e others = record {
  path = path;
  header_size = length (write_pickle_string header);
  content_base = 8 + length (write_pickle_string header);
  entries = put (normalize_inner_path name) e others;
}

-- Where a packed file is found: at the offset and the size of its node in the finished tree, `ReadFile`
-- of the archive gives its bytes.
pub record IsPacked (name : Text) (bytes header : List ℕ) (c : Built) : Type 0 where
  pub offset : ℕ
  pub noted : find_at name c.fields ≡ some (file (some offset) (length bytes) false)
  pub readable :
      (beside : Text → Outcome AsarError (List ℕ)) (path : Text) (others : Dict Entry)
      → read_file beside
          (image header c.content)
          name
          (opened path header name (packed_entry name offset (length bytes)) others)
        ≡ ok bytes

read_file-opened :
    (beside : Text → Outcome AsarError (List ℕ)) (path name : Text) (content bytes header : List ℕ)
    (offset : ℕ) (others : Dict Entry)
    → read_at content (8 + length (write_pickle_string header) + offset) (length bytes) ≡ bytes
    → read_file beside content name
        (opened path header name (packed_entry name offset (length bytes)) others)
      ≡ ok bytes
unfolding read_file stat
read_file-opened beside path name content bytes header offset others h =
    rw
      (
        get-put_self (normalize_inner_path name) (packed_entry name offset (length bytes)) others,
        read_file,
        stat,
      )
      (ap ok h)

-- None of the files takes the place of the name, or of a folder on the way to it.
abbrev pub AllSpare : Text → List File → Type 0
AllSpare name = All (λ (f : File). Spares f.0 name)

-- A file that stands in the header stands there when the other files are packed.
pack_files-keeps :
    (name : Text) (node : WriteNode) (files : List File) (b c : Built)
    → find_at name b.fields ≡ some node
    → IsFile node
    → AllSpare name files
    → pack_files files b ≡ written c
    → find_at name c.fields ≡ some node
pack_files-keeps name node [] b c h f spared e =
    ap (λ (d : Built). find_at name d.fields) (sym (same_built (sym (pack_nothing b) ∙ e))) ∙ h
pack_files-keeps name node ((n, bytes) ∷ files) b c h f (apart, spared) e =
    let first = pack_files-first n bytes files b c e in
    pack_files-keeps name node files
      (record { fields = first.fields; content = b.content ++ bytes }) c
      (find_at_kept name n node _ b.fields first.fields h f apart first.adds) f spared first.packs

regroup :
    (front pickle x y z : List ℕ)
    → (front ++ (pickle ++ x)) ++ (y ++ z) ≡ front ++ (pickle ++ ((x ++ y) ++ z))
regroup front pickle x y z = simp append_assoc

-- What stands behind `x` in the contents is read at its length.
read_image :
    (header x y z : List ℕ)
    → read_at
        (image header ((x ++ y) ++ z))
        (8 + length (write_pickle_string header) + length x)
        (length y)
      ≡ y
unfolding image
read_image header x y z =
    let pickle = write_pickle_string header in
    let front = write_pickle_uint32 (length pickle) in
    subst (λ l. read_at l (8 + length pickle + length x) (length y) ≡ y)
      (regroup front pickle x y z)
      (read_at-middle (front ++ (pickle ++ x)) y z (8 + length pickle + length x) (
        omega (
          arith,
          length-append front (pickle ++ x),
          length-append pickle x,
          length-write_pickle_uint32 (length pickle),
        )))

first-IsPacked :
    (name : Text) (bytes header : List ℕ) (files : List File) (b c : Built)
    → AllSpare name files
    → pack_files ((name, bytes) ∷ files) b ≡ written c
    → IsPacked name bytes header c
first-IsPacked name bytes header files b c spared e =
    let first = pack_files-first name bytes files b c e in
    let rest =
      pack_files-Extends files (record { fields = first.fields; content = b.content ++ bytes }) c
        first.packs in
    record {
      offset = length b.content;
      noted =
          pack_files-keeps name (file (some (length b.content)) (length bytes) false) files
            (record { fields = first.fields; content = b.content ++ bytes }) c
            (find_at-add_header_write_file name _ b.fields first.fields first.adds) refl spared
            first.packs;
      readable = λ beside path others.
          read_file-opened beside path name _ bytes header (length b.content) others (
            subst
              (λ l.
                read_at (image header l)
                  (8 + length (write_pickle_string header) + length b.content) (length bytes)
                ≡ bytes)
              (sym rest.extends) (read_image header b.content bytes rest.more));
    }

pack_files-IsPacked :
    (before behind : List File) (name : Text) (bytes header : List ℕ) (b c : Built)
    → AllSpare name behind
    → pack_files (before ++ (name, bytes) ∷ behind) b ≡ written c
    → IsPacked name bytes header c
pack_files-IsPacked [] behind name bytes header b c spared e =
    first-IsPacked name bytes header behind b c spared e
pack_files-IsPacked ((n, s) ∷ before) behind name bytes header b c spared e =
    let first = pack_files-first n s (before ++ (name, bytes) ∷ behind) b c e in
    pack_files-IsPacked before behind name bytes header _ c spared first.packs

-- Each file that `Write` packs is read back: where the packing of all succeeds, no file packed after
-- it has its place or that of a folder on the way to it, and the encoded header is shorter than
-- 2^32 - 11 bytes, `Open` finds that header and where the contents begin. Once all are packed, the
-- tree has a file at the name, and in an archive that begins its contents there and has an entry for
-- the name with the offset and the size of that node, `ReadFile` of the name gives the file's bytes.
pub read-pack_files :
    (before behind : List File) (name : Text) (bytes header : List ℕ) (b c : Built)
    → AllSpare name behind
    → pack_files (before ++ (name, bytes) ∷ behind) b ≡ written c
    → length header + 11 < 2 ^ 32
    → (open_image (image header c.content)
        ≡ some (ok (header, 8 + length (write_pickle_string header))))
      × IsPacked name bytes header c
read-pack_files before behind name bytes header b c spared e h = (
  open_image-image header c.content h,
  pack_files-IsPacked before behind name bytes header b c spared e,
)

-- ===== src/SnapshotCache.antt =====
-- sources/cache.py: the cache of fetched files, addressed by content. The files under the cache's
-- root are a list of locations with their bytes (a string of them); the directories' two leading
-- digits of the digest repeat what the digest says. What raises is `none`. The digest, the JSON
-- functions, the age of a timestamp in hours (no value where the text is not a timestamp) and the
-- answer of a web server are parameters. Timestamps without a time zone are left out.
mod Immutable
mod Newest
mod Matches
mod Sound
mod Served
mod Collisions
mod Encoding
mod Examples
use continuityos.Prelude.{
  ◌++◌, ℕ, String, str_append, str_eq, zero, suc, ◌||◌, List, [], ◌∷◌, Bool, true, false, not, ◌&&◌,
  Option, none, some, if◌then◌else◌,
}
use continuityos.Prelude.{str_lt, str_take}
use continuityos.Float.{Float, ◌<<◌}

pub record SnapshotMetadata : Type 0 where
  pub snapshot_id : String
  pub source_id : String
  pub url : String
  pub retrieved_at : String
  pub content_sha256 : String
  pub content_type : Option String
  pub etag : Option String
  pub last_modified : Option String
  pub status_code : ℕ

pub data FileName : Type 0 where
  payload_bin metadata_json : FileName

-- root / source_id / sha256[:2] / sha256 / name
pub record Location : Type 0 where
  pub source_id : String
  pub sha256 : String
  pub name : FileName

abbrev pub Files : Type 0
Files = List (Location × String)

-- The libraries that the cache calls.
pub record Runtime (F : Type 0) : Type 0 where
  pub hexdigest : String → String
  pub dumps : SnapshotMetadata → String
  pub loads : String → Option SnapshotMetadata
  pub age_hours : String → Option F

pub record Response : Type 0 where
  pub content : String
  pub headers : List (String × String)
  pub status_code : ℕ

abbrev pub same_name : FileName → FileName → Bool
same_name payload_bin payload_bin = true
same_name metadata_json metadata_json = true
same_name _ _ = false

unfoldable pub same_location : Location → Location → Bool
same_location a b =
    same_name a.name b.name && (str_eq a.source_id b.source_id && str_eq a.sha256 b.sha256)

-- the bytes of a file, none where there is no such file
unfoldable pub content_at : Location → Files → Option String
content_at l [] = none
content_at l ((k, content) ∷ files) =
    let rest = content_at l files in if same_location l k then some content else rest

-- `dict.get`
abbrev pub header_of : String → List (String × String) → Option String
header_of key [] = none
header_of key ((k, v) ∷ more) = if str_eq k key then some v else header_of key more

abbrev pub payload_path : String → String → Location
payload_path source digest = record { source_id = source; sha256 = digest; name = payload_bin }

abbrev pub metadata_path : String → String → Location
metadata_path source digest = record { source_id = source; sha256 = digest; name = metadata_json }

-- `_atomic_write`
unfoldable pub atomic_write : Location → String → Files → Option Files
atomic_write path content files = elim (content_at path files) [
  | none ↦ some ((path, content) ∷ files)
  | some old ↦ if str_eq old content then some files else none
]

module _ {F : Type 0} (rt : Runtime F) where
  -- what `store` records, at the time `now`
  abbrev pub metadata_for :
      String → String → String → String → List (String × String) → ℕ → SnapshotMetadata
  metadata_for now source url body headers status = record {
    snapshot_id = str_append source (str_append "-" (str_take 20 (rt.hexdigest body)));
    source_id = source;
    url = url;
    retrieved_at = now;
    content_sha256 = rt.hexdigest body;
    content_type = header_of "content-type" headers;
    etag = header_of "etag" headers;
    last_modified = header_of "last-modified" headers;
    status_code = status;
  }

  -- the second write of `store`, after the payload's
  abbrev pub write_metadata : SnapshotMetadata → Files → Option SnapshotMetadata × Files
  write_metadata m files =
      elim (atomic_write (metadata_path m.source_id m.content_sha256) (rt.dumps m) files) [
        | none ↦ (none, files)
        | some files' ↦ (some m, files')
      ]

  -- A write that raises leaves what was written before it.
  unfoldable pub store_snapshot :
      SnapshotMetadata → String → Files → Option SnapshotMetadata × Files
  store_snapshot m body files =
      elim (atomic_write (payload_path m.source_id m.content_sha256) body files) [
        | none ↦ (none, files)
        | some files' ↦ write_metadata m files'
      ]

  unfoldable pub store :
      String
      → String
      → String
      → String
      → List (String × String)
      → ℕ
      → Files
      → Option SnapshotMetadata × Files
  store now source url body headers status files =
      store_snapshot (metadata_for now source url body headers status) body files

  -- `get` stands for the request, `none` where it or `raise_for_status` raises
  unfoldable pub fetch :
      (String → Option Response)
      → String
      → String
      → String
      → Bool
      → Files
      → Option (SnapshotMetadata × String) × Files
  fetch get now source url outbound_enabled files =
      if not outbound_enabled then (none, files) else elim (get url) [
        | none ↦ (none, files)
        | some response ↦
            let (m, files') =
              store now source url response.content response.headers response.status_code files in
            elim m [
              | none ↦ (none, files')
              | some metadata ↦ (some (metadata, response.content), files')
            ]
      ]

  -- `body` is what `path.read_bytes()` returns
  unfoldable pub import_file :
      String
      → String
      → String
      → Option String
      → Option String
      → Files
      → Option SnapshotMetadata × Files
  import_file now source url none content_type files = (none, files)
  import_file now source url (some body) none files = store now source url body [] 200 files
  import_file now source url (some body) (some t) files =
      store now source url body (if str_eq t "" then [] else ("content-type", t) ∷ []) 200 files

  unfoldable pub read : String → String → Files → Option (SnapshotMetadata × String)
  read source sha files = elim (content_at (metadata_path source sha) files) [
    | none ↦ none
    | some text ↦ elim (rt.loads text) [
      | none ↦ none
      | some metadata ↦ elim (content_at (payload_path source sha) files) [
        | none ↦ none
        | some body ↦ if str_eq (rt.hexdigest body) sha then some (metadata, body) else none
      ]
    ]
  ]

-- whether a timestamp is no older than the limit
abbrev pub is_recent : {F : Type 0} ⦃fl : Float F⦄ → Option F → F → Bool
is_recent none age = true
is_recent (some max_age_hours) age = not (max_age_hours << age)

abbrev pub has_url : Option String → SnapshotMetadata → Bool
has_url none m = true
has_url (some url) m = str_eq m.url url

abbrev pub is_metadata_of : String → Location → Bool
is_metadata_of source l = same_name l.name metadata_json && str_eq l.source_id source

-- `max` by `retrieved_at`: the first of the greatest
abbrev pub later_of : SnapshotMetadata → SnapshotMetadata → SnapshotMetadata
later_of m c = if str_lt m.retrieved_at c.retrieved_at then c else m

abbrev pub newest : SnapshotMetadata → List SnapshotMetadata → SnapshotMetadata
newest m [] = m
newest m (c ∷ more) = newest (later_of m c) more

module _ {F : Type 0} ⦃fl : Float F⦄ (rt : Runtime F) where
  -- one metadata file of the loop in `latest`
  abbrev pub candidate : Option String → Option F → String → List SnapshotMetadata
  candidate url max_age text = elim (rt.loads text) [
    | none ↦ []
    | some m ↦ elim (rt.age_hours m.retrieved_at) [
      | none ↦ []
      | some age ↦ if has_url url m && is_recent max_age age then m ∷ [] else []
    ]
  ]

  unfoldable pub candidates : String → Option String → Option F → Files → List SnapshotMetadata
  candidates source url max_age [] = []
  candidates source url max_age ((l, text) ∷ files) =
      let rest = candidates source url max_age files in
      if is_metadata_of source l then candidate url max_age text ++ rest else rest

  -- The outer `none` is an exception, the inner one the result `None`.
  unfoldable pub latest :
      String → Option String → Option F → Files → Option (Option (SnapshotMetadata × String))
  latest source url max_age files = elim (candidates source url max_age files) [
    | [] ↦ some none
    | m ∷ more ↦ elim (read rt (newest m more).source_id (newest m more).content_sha256 files) [
      | none ↦ none
      | some (raw, body) ↦ some (some (newest m more, body))
    ]
  ]

-- ===== src/Gcs/Sink/Writes.antt =====
-- core/crates/xero-gcs/src/sink.rs: `put_raw` of both sinks, the sidecar after its object, and the
-- manifest. The store is a list of what was written, the latest first; an oracle says which of its
-- writes fail, and with what message.
use xero_visma_v.Base.{
  ℕ, ◌+◌, ◌≡◌, sym, subst, Option, none, some, List, [], ◌∷◌, ◌++◌, Text, codes, trim, is_nil,
  Result, ok, err, if◌then◌else◌, arith,
}
use xero_visma_v.Base.BTree.{insert}
use xero_visma_v.Errors.{GcsError, upload, io, auth, config}
use xero_visma_v.Foreign.{Chrono}
use xero_visma_v.Gcs.Keys.{sidecar_key, manifest_key}
use xero_visma_v.Gcs.Meta.{ObjectMeta}
use xero_visma_v.Gcs.Sink.{Component, resolve_within_root}

abbrev pub Put : Type 0 → Type 0
Put S = S → Result GcsError (Unit {0}) × S

-- The trait `RawSink`.
pub record RawSink : Type 1 where
  pub State : Type 0
  pub put_raw : Text → Text → ObjectMeta → Put State

-- `first.await?; second.await?; Ok(())`
abbrev pub and_put :
    {S : Type 0} → Result GcsError (Unit {0}) × S → Put S → Result GcsError (Unit {0}) × S
and_put (ok _, s) second = second s
and_put (err e, s) second = (err e, s)

pub record Object : Type 0 where
  pub name : Text
  pub body : Text
  pub metadata : Option ObjectMeta

pub record Bucket : Type 0 where
  pub objects : List Object
  pub uploads : ℕ

-- `GcsRawSink::new`: the bucket must have a name, and the credentials must work.
unfoldable pub new_sink : Option Text → Text → Result GcsError Text
new_sink auth_error bucket =
    if is_nil (trim bucket)
    then err (config (codes "bucket name must not be empty"))
    else elim auth_error [ some message ↦ err (auth message) | none ↦ ok bucket ]

module _ (refuses : ℕ → Option Text) (pretty : ObjectMeta → Text) where
  -- One upload: `upload_with_meta` with metadata, `upload_plain` without.
  unfoldable pub upload_object : Object → Put Bucket
  upload_object o b = elim (refuses b.uploads) [
    | some message ↦ (
      err (upload (codes "upload " ++ o.name ++ codes " failed: " ++ message)),
      record b { uploads = b.uploads + 1 },
    )
    | none ↦ (ok tt, record { objects = o ∷ b.objects; uploads = b.uploads + 1 })
  ]

  unfoldable pub put_raw : Text → Text → ObjectMeta → Put Bucket
  unfolding upload_object
  put_raw key body meta b =
      and_put (upload_object (record { name = key; body = body; metadata = some meta }) b)
        (upload_object (record { name = sidecar_key key; body = pretty meta; metadata = none }))

  -- Newest first: an object without metadata is the sidecar of the object written just before it,
  -- and its text is that object's metadata.
  pub data IsPaired : List Object → Type 0 where
    empty : IsPaired []
    object :
        {rest : List Object} (key body : Text) (meta : ObjectMeta)
        → IsPaired rest
        → IsPaired (record { name = key; body = body; metadata = some meta } ∷ rest)
    sidecar :
        {rest : List Object} (key body : Text) (meta : ObjectMeta)
        → IsPaired rest
        → IsPaired (
            record { name = sidecar_key key; body = pretty meta; metadata = none }
            ∷ record { name = key; body = body; metadata = some meta }
            ∷ rest)

  -- The result of `put_raw` by the answers to its two uploads.
  abbrev pub put_outcome : Option Text → Option Text → Text → Text → ObjectMeta → Put Bucket
  put_outcome (some message) second key body meta b = (
    err (upload (codes "upload " ++ key ++ codes " failed: " ++ message)),
    record b { uploads = b.uploads + 1 },
  )
  put_outcome none (some message) key body meta b = (
    err (upload (codes "upload " ++ sidecar_key key ++ codes " failed: " ++ message)),
    record {
      objects = record { name = key; body = body; metadata = some meta } ∷ b.objects;
      uploads = b.uploads + 1 + 1;
    },
  )
  put_outcome none none key body meta b = (
    ok tt,
    record {
      objects =
          record { name = sidecar_key key; body = pretty meta; metadata = none }
          ∷ record { name = key; body = body; metadata = some meta }
          ∷ b.objects;
      uploads = b.uploads + 1 + 1;
    },
  )

  -- `put_raw` succeeds just when both uploads do, and then has written the body with its metadata
  -- and the sidecar; a refused object leaves nothing, a refused sidecar the object alone.
  pub put_raw-put_outcome :
      (key body : Text) (meta : ObjectMeta) (b : Bucket)
      → put_raw key body meta b
        ≡ put_outcome (refuses b.uploads) (refuses (b.uploads + 1)) key body meta b
  unfolding put_raw
  put_raw-put_outcome key body meta b = ground arith

  -- If every object without metadata in the bucket is the sidecar of the object written just
  -- before it, this holds after `put_raw` too, whichever uploads are refused: no sidecar is ever
  -- without its object.
  put_raw-IsPaired :
      (key body : Text) (meta : ObjectMeta) (b : Bucket)
      → IsPaired b.objects
      → IsPaired (put_raw key body meta b).1.objects
  put_raw-IsPaired key body meta b h =
      subst (λ r. IsPaired r.1.objects) (sym (put_raw-put_outcome key body meta b))
        (paired (refuses b.uploads) (refuses (b.uploads + 1)))
    where
      paired :
          (first second : Option Text)
          → IsPaired (put_outcome first second key body meta b).1.objects
      paired (some message) second = h
      paired none (some message) = object key body meta h
      paired none none = sidecar key body meta h

abbrev pub gcs_sink : (ℕ → Option Text) → (ObjectMeta → Text) → RawSink
gcs_sink refuses pretty = record { State = Bucket; put_raw = put_raw refuses pretty }

-- The files that the local sink has written, and its calls of the file system so far.
pub record Disk : Type 0 where
  pub files : List (List Component × Text)
  pub calls : ℕ

module _ (refuses : ℕ → Option Text) (pretty : ObjectMeta → Text) (root : List Component) where
  -- `LocalDirSink::write_file`; creating the directories and writing are one call here.
  unfoldable pub write_file : Text → Text → Put Disk
  write_file key body d = elim (resolve_within_root root key) [
    | err e ↦ (err e, d)
    | ok path ↦ elim (refuses d.calls) [
      | some message ↦ (err (io message), record d { calls = d.calls + 1 })
      | none ↦ (ok tt, record { files = (path, body) ∷ d.files; calls = d.calls + 1 })
    ]
  ]

  unfoldable pub put_raw_local : Text → Text → ObjectMeta → Put Disk
  unfolding write_file
  put_raw_local key body meta d =
      and_put (write_file key body d) (write_file (sidecar_key key) (pretty meta))

abbrev pub local_sink : (ℕ → Option Text) → (ObjectMeta → Text) → List Component → RawSink
local_sink refuses pretty root = record {
  State = Disk;
  put_raw = put_raw_local refuses pretty root;
}

unfoldable pub manifest_meta : ObjectMeta
unfolding insert
manifest_meta =
    insert (codes "x-sync-type") (codes "manifest") (insert (codes "x-vendor") (codes "xero") [])

-- `write_manifest`, given the text of the manifest.
unfoldable pub write_manifest : (S : RawSink) (C : Chrono) → C.Date → Text → Text → Put S.State
unfolding manifest_meta
write_manifest S C run_date run_id body =
    S.put_raw (manifest_key C run_date run_id) body manifest_meta

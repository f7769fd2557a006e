-- ===== src/Gcs/Sink/Local.antt =====
-- `LocalDirSink` of core/crates/xero-gcs/src/sink.rs: all that it writes is below its root.
use xero_visma_v.Base.{
  ℕ, ◌≡◌, Option, List, ◌++◌, Text, Result, ok, err, All, Option-cases, Result-cases, inl, inr,
}
use xero_visma_v.Errors.{GcsError}
use xero_visma_v.Gcs.Keys.{sidecar_key}
use xero_visma_v.Gcs.Meta.{ObjectMeta}
use xero_visma_v.Gcs.Sink.{Component, resolve_within_root}
use xero_visma_v.Gcs.Sink.Paths.{IsPlain, resolve_within_root_sound}
use xero_visma_v.Gcs.Sink.Writes.{Disk, and_put, write_file, put_raw_local}

-- A file whose path is the root with more components behind it, none of which goes up.
abbrev IsBelow : List Component → List Component × Text → Type 0
IsBelow root (path, body) = (rest : List Component) × (path ≡ root ++ rest) × All IsPlain path

module _ (refuses : ℕ → Option Text) (pretty : ObjectMeta → Text) (root : List Component) where
  write_file-IsBelow :
      (key body : Text) (d : Disk)
      → All (IsBelow root) d.files
      → All (IsBelow root) (write_file refuses pretty root key body d).1.files
  unfolding write_file
  write_file-IsBelow key body d h = elim (Result-cases (resolve_within_root root key)) [
    | inr (e, refused) ↦ rw (refused, write_file) h
    | inl (path, found) ↦ elim (Option-cases (refuses d.calls)) [
      | inr (message, failed) ↦ rw (found, write_file) (rw failed h)
      | inl fine ↦
          rw (found, write_file) (rw fine (resolve_within_root_sound root key path found, h))
    ]
  ]

  and_put-IsBelow :
      (r : Result GcsError (Unit {0}) × Disk) (key body : Text)
      → All (IsBelow root) r.1.files
      → All (IsBelow root) (and_put r (write_file refuses pretty root key body)).1.files
  and_put-IsBelow (ok _, d) key body h = write_file-IsBelow key body d h
  and_put-IsBelow (err e, d) key body h = h

  -- Whatever the key, and whichever calls of the file system fail: if every file of the sink is below
  -- its root before `put_raw` of the local sink, then every file is afterwards.
  put_raw_local-IsBelow :
      (key body : Text) (meta : ObjectMeta) (d : Disk)
      → All (IsBelow root) d.files
      → All (IsBelow root) (put_raw_local refuses pretty root key body meta d).1.files
  unfolding put_raw_local
  put_raw_local-IsBelow key body meta d h =
      and_put-IsBelow (write_file refuses pretty root key body d) (sidecar_key key) (pretty meta)
        (write_file-IsBelow key body d h)

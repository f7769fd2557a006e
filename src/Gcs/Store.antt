-- ===== src/Gcs/Store.antt =====
-- A sink as a map from keys to texts: what core/crates/xero-gcs/src/sink.rs promises to those who
-- call `put_raw`, and that the bucket keeps the promise.
use xero_visma_v.Base.{
  ℕ, ◌+◌, ◌≡◌, refl, sym, ap, ◌∙◌, Option, none, some, List, [], ◌∷◌, ◌++◌, Text, codes, text_eq,
  Result, ok, err, if◌then◌else◌,
}
use xero_visma_v.Errors.{GcsError, upload}
use xero_visma_v.Gcs.Keys.{sidecar_key}
use xero_visma_v.Gcs.Meta.{ObjectMeta}
use xero_visma_v.Gcs.Sink.Writes.{
  Object, Bucket, RawSink, put_raw, put_outcome, put_raw-put_outcome, gcs_sink,
}

abbrev pub Contents : Type 0
Contents = Text → Option Text

abbrev pub set : Text → Text → Contents → Contents
set key body m k = if text_eq key k then some body else m k

-- `put_raw` on a map, by the answers to its two uploads.
abbrev pub put_map :
    (ObjectMeta → Text)
    → Option Text
    → Option Text
    → Text
    → Text
    → ObjectMeta
    → Contents
    → Result GcsError (Unit {0}) × Contents
put_map pretty (some message) second key body meta m =
    (err (upload (codes "upload " ++ key ++ codes " failed: " ++ message)), m)
put_map pretty none (some message) key body meta m = (
  err (upload (codes "upload " ++ sidecar_key key ++ codes " failed: " ++ message)),
  set key body m,
)
put_map pretty none none key body meta m =
    (ok tt, set (sidecar_key key) (pretty meta) (set key body m))

-- The latest object of a name.
abbrev pub find_object : List Object → Contents
find_object [] k = none
find_object (o ∷ os) k = if text_eq o.name k then some o.body else find_object os k

abbrev pub on_contents : Result GcsError (Unit {0}) × Bucket → Result GcsError (Unit {0}) × Contents
on_contents (r, b) = (r, find_object b.objects)

module _ (refuses : ℕ → Option Text) (pretty : ObjectMeta → Text) where
  outcome-put_map :
      (first second : Option Text) (key body : Text) (meta : ObjectMeta) (b : Bucket)
      → on_contents (put_outcome refuses pretty first second key body meta b)
        ≡ put_map pretty first second key body meta (find_object b.objects)
  outcome-put_map (some message) second key body meta b = refl
  outcome-put_map none (some message) key body meta b = refl
  outcome-put_map none none key body meta b = refl

  -- The bucket refines a map from keys to texts: whichever uploads are refused, `put_raw` answers
  -- what the map's operation does, and leaves the bucket with the contents of that map.
  pub put_raw-put_map :
      (key body : Text) (meta : ObjectMeta) (b : Bucket)
      → on_contents (put_raw refuses pretty key body meta b)
        ≡ put_map pretty
            (refuses b.uploads)
            (refuses (b.uploads + 1))
            key
            body
            meta
            (find_object b.objects)
  put_raw-put_map key body meta b =
      ap on_contents (put_raw-put_outcome refuses pretty key body meta b)
      ∙ outcome-put_map (refuses b.uploads) (refuses (b.uploads + 1)) key body meta b

-- A sink that keeps texts by key: a call that succeeds sets the object and its sidecar, and no
-- other key.
pub record IsStore (S : RawSink) (pretty : ObjectMeta → Text) : Type 0 where
  pub contents : S.State → Contents
  pub put_ok :
      (key body : Text) (meta : ObjectMeta) (s after : S.State)
      → S.put_raw key body meta s ≡ (ok tt, after)
      → contents after ≡ set (sidecar_key key) (pretty meta) (set key body (contents s))

map_ok :
    (pretty : ObjectMeta → Text) (first second : Option Text) (key body : Text) (meta : ObjectMeta)
    (m n : Contents)
    → put_map pretty first second key body meta m ≡ (ok tt, n)
    → n ≡ set (sidecar_key key) (pretty meta) (set key body m)
map_ok pretty (some message) second key body meta m n h = cc h
map_ok pretty none (some message) key body meta m n h = cc h
map_ok pretty none none key body meta m n h = ap (λ r. r.1) (sym h)

pub gcs_sink-IsStore :
    (refuses : ℕ → Option Text) (pretty : ObjectMeta → Text)
    → IsStore (gcs_sink refuses pretty) pretty
gcs_sink-IsStore refuses pretty = record {
  contents = λ b. find_object b.objects;
  put_ok = λ key body meta s after h.
      map_ok pretty (refuses s.uploads) (refuses (s.uploads + 1)) key body meta
        (find_object s.objects) (find_object after.objects)
        (sym (put_raw-put_map refuses pretty key body meta s) ∙ ap on_contents h);
}

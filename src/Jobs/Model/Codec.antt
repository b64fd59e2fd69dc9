-- ===== src/Jobs/Model/Codec.antt =====
-- A stored job reads back as it was written.
use tarassov_me.Prelude.{◌≡◌, some, Str}
use tarassov_me.External.Json.{JsonLib, lookup}
use tarassov_me.Jobs.Model.{Job, to_json, from_json, decode, ◌>>=◌, value}

module _ (J : JsonLib) where
  open J use {Json, find-object, get_text-text, get_int-int, parse-dump, dump}

  -- A job that is written as JSON is read back as it was.
  pub from_json-to_json : (job : Job Json) → from_json J (to_json J job) ≡ some job
  unfolding from_json to_json lookup
  from_json-to_json job = simp (find-object, get_text-text, get_int-int, ◌>>=◌, value)

  -- What a job's blob decodes to, once it could be written.
  pub decode-dump :
      (job : Job Json) (raw : Str) → dump (to_json J job) ≡ some raw → decode J raw ≡ some job
  unfolding decode
  decode-dump job raw h = rw (parse-dump _ raw h, from_json-to_json job)

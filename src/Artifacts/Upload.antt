-- ===== src/Artifacts/Upload.antt =====
-- src/artifact_service/store.py: how `S3ArtifactStore.upload_and_commit` cuts a body into the parts of
-- a multipart upload, and `_match_existing`.
--
-- Bytes are lists of numbers. `part_size` is the module's _PART_SIZE. An upload of a part that the
-- object store accepts is its bytes; its number is its place, counted from 1.
pub mod Parts
use litellm_gateway.Prelude.{
  ℕ, zero, suc, ◌+◌, ◌-◌, String, Bool, true, false, not, ◌&&◌, ◌||◌, Option, none, some, List, [],
  ◌∷◌, ◌++◌, ◌==◌, if◌then◌else◌, ltb, leb, length, drop, opt_eq,
}

abbrev pub Bytes : Type 0
Bytes = List ℕ

-- buffer[:n]
unfoldable pub take : ℕ → Bytes → Bytes
take zero xs = []
take (suc n) [] = []
take (suc n) (x ∷ xs) = x ∷ take n xs

-- What the loop keeps: the parts so far, the buffer, and the size.
pub record Upload : Type 0 where
  pub parts : List Bytes
  pub buffer : Bytes
  pub size : ℕ

abbrev pub begun : Upload
begun = record { parts = []; buffer = []; size = 0 }

-- A ValidationError ends the upload.
abbrev pub and_then : Option Upload → (Upload → Option Upload) → Option Upload
and_then none f = none
and_then (some u) f = f u

module _ (part_size : ℕ) where
  -- while len(buffer) >= _PART_SIZE, with the buffer's length as fuel
  unfoldable pub flush : ℕ → List Bytes → Bytes → List Bytes × Bytes
  unfolding take
  flush zero parts buffer = (parts, buffer)
  flush (suc fuel) parts buffer =
      let rest = flush fuel (parts ++ take part_size buffer ∷ []) (drop part_size buffer) in
      if leb part_size (length buffer) then rest else (parts, buffer)

  -- The loop's body for one chunk: `none` where the body exceeds the limit.
  unfoldable pub add_chunk : ℕ → Bytes → Upload → Option Upload
  unfolding flush
  add_chunk max_bytes [] u = some u
  add_chunk max_bytes (x ∷ xs) u =
      let size = u.size + length (x ∷ xs) in
      let buffer = u.buffer ++ x ∷ xs in
      let (parts, rest) = flush (length buffer) u.parts buffer in
      if ltb max_bytes size
      then none
      else some (record { parts = parts; buffer = rest; size = size })

  unfoldable pub add_chunks : ℕ → List Bytes → Upload → Option Upload
  unfolding add_chunk
  add_chunks max_bytes [] u = some u
  add_chunks max_bytes (c ∷ cs) u =
      and_then (add_chunk max_bytes c u) (λ v. add_chunks max_bytes cs v)

abbrev pub with_last : List Bytes → Bytes → List Bytes
with_last parts [] = parts
with_last parts (x ∷ xs) = parts ++ (x ∷ xs) ∷ []

-- if buffer: the last part
abbrev pub last_part : Upload → Upload
last_part u = record u { parts = with_last u.parts u.buffer }

-- The parts and the size of a body, or `none` where it exceeds the limit.
unfoldable pub cut : ℕ → ℕ → List Bytes → Option Upload
unfolding add_chunks
cut part_size max_bytes body =
    and_then (add_chunks part_size max_bytes body begun) (λ u. some (last_part u))

pub record ArtifactDescriptor : Type 0 where
  pub artifact_id : String
  pub owner_id : String
  pub filename : String
  pub media_type : String
  pub size : ℕ
  pub sha256 : String
  pub created_at : ℕ

-- _match_existing, which raises ArtifactConflictError where this is false.
unfoldable pub match_existing : ArtifactDescriptor → String → String → String → Option String → Bool
match_existing d owner_id filename media_type expected_sha256 = not (
    not (d.owner_id == owner_id)
    || not (d.filename == filename)
    || not (d.media_type == media_type)
    || differs expected_sha256)
  where
    differs : Option String → Bool
    differs none = false
    differs (some sha256) = not (d.sha256 == sha256)

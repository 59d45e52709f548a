-- ===== src/Artifacts/Upload/Parts.antt =====
-- The parts of an upload of src/artifact_service/store.py against the body that they come from.
use mathlib.Core.Path.{subst}
use litellm_gateway.Prelude.{
  ℕ, zero, suc, ◌+◌, ◌≤◌, ◌<◌, ◌≡◌, refl, sym, ap, ◌∙◌, Bool, true, false, Option, none, some, List,
  [], ◌∷◌, ◌++◌, if◌then◌else◌, ltb, leb, length, drop, length-append, length-drop, append_assoc,
  append-nil, All, All-snoc, arith,
}
use litellm_gateway.Artifacts.Upload.{
  Bytes, Upload, begun, take, flush, and_then, add_chunk, add_chunks, with_last, last_part, cut,
}

abbrev pub join : List Bytes → Bytes
join [] = []
join (p ∷ ps) = p ++ join ps

join-snoc : (ps : List Bytes) (p : Bytes) → join (ps ++ p ∷ []) ≡ join ps ++ p
join-snoc [] p = append-nil p
join-snoc (q ∷ ps) p = ap (λ xs. q ++ xs) (join-snoc ps p) ∙ sym (append_assoc q (join ps) p)

take-drop : (n : ℕ) (xs : Bytes) → take n xs ++ drop n xs ≡ xs
unfolding take
take-drop zero xs = refl
take-drop (suc n) [] = refl
take-drop (suc n) (x ∷ xs) = ap (◌∷◌ x) (take-drop n xs)

length-take : (n : ℕ) (xs : Bytes) → n ≤ length xs → length (take n xs) ≡ n
unfolding take
length-take zero xs h = refl
length-take (suc n) [] h = absurd (omega arith)
length-take (suc n) (x ∷ xs) h = ap suc (length-take n xs (omega arith))

module _ (part_size : ℕ) (positive : 0 < part_size) where
  abbrev pub IsFull : Bytes → Type 0
  IsFull p = length p ≡ part_size

  -- Every part is full but the last one, which is not empty.
  abbrev pub AreParts : List Bytes → Type 0
  AreParts [] = Unit
  AreParts (p ∷ []) = (0 < length p) × (length p ≤ part_size)
  AreParts (p ∷ q ∷ ps) = IsFull p × AreParts (q ∷ ps)

  -- The loop between two chunks: `total` is the body so far.
  record Holds (total : Bytes) (parts : List Bytes) (buffer : Bytes) : Type 0 where
    joined : join parts ++ buffer ≡ total
    full : All IsFull parts

  record Flushed (total : Bytes) (o : List Bytes × Bytes) : Type 0 where
    holds : Holds total o.0 o.1
    short : length o.1 < part_size

  -- One turn of the loop.
  flush_once :
      (total : Bytes) (parts : List Bytes) (buffer : Bytes)
      → part_size ≤ length buffer
      → Holds total parts buffer
      → Holds total (parts ++ take part_size buffer ∷ []) (drop part_size buffer)
  flush_once total parts buffer h k = record {
    joined =
        ap (λ xs. xs ++ drop part_size buffer) (join-snoc parts (take part_size buffer))
        ∙ append_assoc (join parts) (take part_size buffer) (drop part_size buffer)
        ∙ ap (λ xs. join parts ++ xs) (take-drop part_size buffer)
        ∙ k.joined;
    full = All-snoc IsFull parts (take part_size buffer) k.full (length-take part_size buffer h);
  }

  turn-Flushed :
      (total : Bytes) (parts : List Bytes) (buffer : Bytes) (o : List Bytes × Bytes) (b : Bool)
      → leb part_size (length buffer) ≡ b
      → Holds total parts buffer
      → (part_size ≤ length buffer → Flushed total o)
      → Flushed total (if b then o else (parts, buffer))
  turn-Flushed total parts buffer o true e k more = more (ground arith)
  turn-Flushed total parts buffer o false e k more = record { holds = k; short = ground arith }

  flush-Flushed :
      (fuel : ℕ) (total : Bytes) (parts : List Bytes) (buffer : Bytes)
      → length buffer ≤ fuel
      → Holds total parts buffer
      → Flushed total (flush part_size fuel parts buffer)
  unfolding flush
  flush-Flushed zero total parts buffer h k = record { holds = k; short = omega arith }
  flush-Flushed (suc fuel) total parts buffer h k =
      turn-Flushed total parts buffer
        (flush part_size fuel (parts ++ take part_size buffer ∷ []) (drop part_size buffer))
        (leb part_size (length buffer)) refl k
        (λ l.
          flush-Flushed fuel total (parts ++ take part_size buffer ∷ []) (drop part_size buffer)
            (omega (arith, l, h, positive, length-drop part_size buffer))
            (flush_once total parts buffer l k))

  -- The state of an upload between two chunks.
  record IsCut (max_bytes : ℕ) (total : Bytes) (u : Upload) : Type 0 where
    flushed : Flushed total (u.parts, u.buffer)
    sized : u.size ≡ length total
    within : length total ≤ max_bytes

  -- A body that is cut, or one that is too long.
  abbrev Cuts : ℕ → Bytes → Option Upload → Type 0
  Cuts max_bytes total none = max_bytes < length total
  Cuts max_bytes total (some u) = IsCut max_bytes total u

  add_chunk-Cuts :
      (max_bytes : ℕ) (total c : Bytes) (u : Upload)
      → IsCut max_bytes total u
      → Cuts max_bytes (total ++ c) (add_chunk part_size max_bytes c u)
  unfolding add_chunk
  add_chunk-Cuts max_bytes total [] u k =
      subst (λ t. IsCut max_bytes t u) (sym (append-nil total)) k
  add_chunk-Cuts max_bytes total (x ∷ xs) u k = go (ltb max_bytes (u.size + length (x ∷ xs))) refl
    where
      grown : Holds (total ++ x ∷ xs) u.parts (u.buffer ++ x ∷ xs)
      grown = record {
        joined =
            sym (append_assoc (join u.parts) u.buffer (x ∷ xs))
            ∙ ap (λ ys. ys ++ x ∷ xs) k.flushed.holds.joined;
        full = k.flushed.holds.full;
      }

      go :
          (b : Bool)
          → ltb max_bytes (u.size + length (x ∷ xs)) ≡ b
          → Cuts max_bytes (total ++ x ∷ xs) (
              if b
              then none
              else some (record {
                parts =
                    (flush part_size (length (u.buffer ++ x ∷ xs)) u.parts (u.buffer ++ x ∷ xs)).0;
                buffer =
                    (flush part_size (length (u.buffer ++ x ∷ xs)) u.parts (u.buffer ++ x ∷ xs)).1;
                size = u.size + length (x ∷ xs);
              }))
      go true e = ground (arith, k.sized, length-append total (x ∷ xs))
      go false e = record {
        flushed =
            flush-Flushed (length (u.buffer ++ x ∷ xs)) (total ++ x ∷ xs) u.parts
              (u.buffer ++ x ∷ xs) (omega arith) grown;
        sized = omega (arith, k.sized, length-append total (x ∷ xs));
        within = ground (arith, k.sized, length-append total (x ∷ xs));
      }

  and_then-Cuts :
      (max_bytes : ℕ) (s t : Bytes) (o : Option Upload) (f : Upload → Option Upload)
      → length s ≤ length t
      → Cuts max_bytes s o
      → ((u : Upload) → IsCut max_bytes s u → Cuts max_bytes t (f u))
      → Cuts max_bytes t (and_then o f)
  and_then-Cuts max_bytes s t none f l h k = omega (arith, l, h)
  and_then-Cuts max_bytes s t (some u) f l h k = k u h

  add_chunks-Cuts :
      (max_bytes : ℕ) (total : Bytes) (body : List Bytes) (u : Upload)
      → IsCut max_bytes total u
      → Cuts max_bytes (total ++ join body) (add_chunks part_size max_bytes body u)
  unfolding add_chunks
  add_chunks-Cuts max_bytes total [] u k =
      subst (λ t. IsCut max_bytes t u) (sym (append-nil total)) k
  add_chunks-Cuts max_bytes total (c ∷ cs) u k =
      and_then-Cuts max_bytes (total ++ c) (total ++ (c ++ join cs))
        (add_chunk part_size max_bytes c u) _
        (omega (
          arith,
          length-append total c,
          length-append total (c ++ join cs),
          length-append c (join cs),
        ))
        (add_chunk-Cuts max_bytes total c u k)
        (λ v h.
          subst (λ t. Cuts max_bytes t (add_chunks part_size max_bytes cs v))
            (append_assoc total c (join cs)) (add_chunks-Cuts max_bytes (total ++ c) cs v h))

  full-AreParts : (ps : List Bytes) → All IsFull ps → AreParts ps
  full-AreParts [] f = tt
  full-AreParts (p ∷ []) f = (omega (arith, f.0, positive), omega (arith, f.0))
  full-AreParts (p ∷ q ∷ ps) f = (f.0, full-AreParts (q ∷ ps) f.1)

  snoc-AreParts :
      (ps : List Bytes) (last : Bytes)
      → All IsFull ps
      → 0 < length last
      → length last ≤ part_size
      → AreParts (ps ++ last ∷ [])
  snoc-AreParts [] last f l h = (l, h)
  snoc-AreParts (p ∷ []) last f l h = (f.0, (l, h))
  snoc-AreParts (p ∷ q ∷ ps) last f l h = (f.0, snoc-AreParts (q ∷ ps) last f.1 l h)

  with_last-AreParts :
      (ps : List Bytes) (buffer : Bytes)
      → All IsFull ps
      → length buffer < part_size
      → AreParts (with_last ps buffer)
  with_last-AreParts ps [] f l = full-AreParts ps f
  with_last-AreParts ps (x ∷ xs) f l = snoc-AreParts ps (x ∷ xs) f (omega arith) (omega (arith, l))

  join-with_last :
      (ps : List Bytes) (buffer : Bytes) → join (with_last ps buffer) ≡ join ps ++ buffer
  join-with_last ps [] = sym (append-nil (join ps))
  join-with_last ps (x ∷ xs) = join-snoc ps (x ∷ xs)

  -- What a cut of a whole body is.
  pub record IsWhole (max_bytes : ℕ) (total : Bytes) (u : Upload) : Type 0 where
    pub joined : join u.parts ≡ total
    pub parted : AreParts u.parts
    pub sized : u.size ≡ length total
    pub within : length total ≤ max_bytes

  abbrev pub Exactly : ℕ → Bytes → Option Upload → Type 0
  Exactly max_bytes total none = max_bytes < length total
  Exactly max_bytes total (some u) = IsWhole max_bytes total u

  finished-Exactly :
      (max_bytes : ℕ) (total : Bytes) (o : Option Upload)
      → Cuts max_bytes total o
      → Exactly max_bytes total (and_then o (λ u. some (last_part u)))
  finished-Exactly max_bytes total none h = h
  finished-Exactly max_bytes total (some u) h = record {
    joined = join-with_last u.parts u.buffer ∙ h.flushed.holds.joined;
    parted = with_last-AreParts u.parts u.buffer h.flushed.holds.full h.flushed.short;
    sized = h.sized;
    within = h.within;
  }

  begun-IsCut : (max_bytes : ℕ) → IsCut max_bytes [] begun
  begun-IsCut max_bytes = record {
    flushed = record { holds = record { joined = refl; full = tt }; short = positive };
    sized = refl;
    within = omega arith;
  }

-- However a body comes in chunks, an upload is refused exactly where the body is longer than the limit.
-- Otherwise its parts, one after the other, are the body; every part but the last has the part size,
-- the last is not empty and no longer than that; and the recorded size is the body's length.
pub cut_exact :
    (part_size : ℕ) (positive : 0 < part_size) (max_bytes : ℕ) (body : List Bytes)
    → Exactly part_size positive max_bytes (join body) (cut part_size max_bytes body)
unfolding cut
cut_exact part_size positive max_bytes body =
    finished-Exactly part_size positive max_bytes (join body)
      (add_chunks part_size max_bytes body begun)
      (add_chunks-Cuts part_size positive max_bytes [] body begun
        (begun-IsCut part_size positive max_bytes))

-- ===== src/Adapter/Csp/Closed.antt =====
-- The metadata of an MCP App cannot add a directive to the policy that
-- src/codex_responses_adapter/csp.py builds for it.
use Prim.Native.String.append
use litellm_gateway.Prelude.{
  String, ◌≡◌, refl, ap, sym, ◌∙◌, Bool, true, false, not, ◌&&◌, ◌||◌, List, [], ◌∷◌, ◌==◌,
  if◌then◌else◌, All, arith, Bool-cases, inl, inr,
}
use litellm_gateway.Prelude.Json.{
  Json, null, bool, int, float, str, arr, obj, Items, nil, cons, Fields, get,
}
use litellm_gateway.Prelude.Text.{concat, concat_assoc, strip, has_char, join_with, split_on}
use litellm_gateway.Prelude.Split.{split_on-concat, has_char-concat}
use litellm_gateway.Adapter.Csp.{
  dict_or_empty, ui_meta, is_safe_source, safe_items, safe_sources, is_seen, unique, directive,
  resource_directives, other_directives, or_none, directives, build_mcp_app_csp,
}

abbrev is_closed : String → Bool
is_closed s = not (has_char 59 s || has_char 10 s || has_char 13 s)

-- A text without ";" and without the end of a line.
abbrev IsClosed : String → Type 0
IsClosed s = (has_char 59 s ≡ false) × (has_char 10 s ≡ false) × (has_char 13 s ≡ false)

concat-IsClosed : (a b : String) → IsClosed a → IsClosed b → IsClosed (concat a b)
concat-IsClosed a b h k = (
  has_char-concat 59 a b ∙ rw (h.0, k.0) refl,
  has_char-concat 10 a b ∙ rw (h.1, k.1) refl,
  has_char-concat 13 a b ∙ rw (h.2, k.2) refl,
)

safe-IsClosed : (s : String) → is_safe_source s ≡ true → IsClosed s
safe-IsClosed s h = apart (s == "") (has_char 59 s) (has_char 10 s) (has_char 13 s) h
  where
    apart :
        (e x y z : Bool)
        → (not e && not (x || y || z)) ≡ true
        → (x ≡ false) × (y ≡ false) × (z ≡ false)
    apart e x y z p = ground arith

if-IsClosed :
    (s : String) (rest : List String)
    → All IsClosed rest
    → All IsClosed (if is_safe_source s then s ∷ rest else rest)
if-IsClosed s rest h = elim (Bool-cases (is_safe_source s)) [
  | inl e ↦ rw e (safe-IsClosed s e, h)
  | inr e ↦ rw e h
]

items-IsClosed : (xs : Items) → All IsClosed (safe_items xs)
unfolding safe_items
items-IsClosed nil = tt
items-IsClosed (cons (str s) xs) = if-IsClosed (strip s) (safe_items xs) (items-IsClosed xs)
items-IsClosed (cons null xs) = items-IsClosed xs
items-IsClosed (cons (bool b) xs) = items-IsClosed xs
items-IsClosed (cons (int n) xs) = items-IsClosed xs
items-IsClosed (cons (float m e) xs) = items-IsClosed xs
items-IsClosed (cons (arr ys) xs) = items-IsClosed xs
items-IsClosed (cons (obj d) xs) = items-IsClosed xs

sources-IsClosed : (v : Json) → All IsClosed (safe_sources v)
unfolding safe_sources
sources-IsClosed (arr xs) = items-IsClosed xs
sources-IsClosed null = tt
sources-IsClosed (bool b) = tt
sources-IsClosed (int n) = tt
sources-IsClosed (float m e) = tt
sources-IsClosed (str s) = tt
sources-IsClosed (obj d) = tt

unique-IsClosed :
    (sources seen : List String) → All IsClosed sources → All IsClosed (unique seen sources)
unfolding unique
unique-IsClosed [] seen h = tt
unique-IsClosed (s ∷ sources) seen h = elim (Bool-cases (is_seen s seen)) [
  | inl e ↦ rw e (unique-IsClosed sources seen h.1)
  | inr e ↦ rw e (h.0, unique-IsClosed sources (s ∷ seen) h.1)
]

join-IsClosed : (sources : List String) → All IsClosed sources → IsClosed (join_with " " sources)
unfolding join_with has_char
join-IsClosed [] h = (refl, refl, refl)
join-IsClosed (s ∷ []) h = h.0
join-IsClosed (s ∷ t ∷ sources) h = concat-IsClosed s _ h.0 (
    concat-IsClosed " " (join_with " " (t ∷ sources)) (refl, refl, refl)
      (join-IsClosed (t ∷ sources) h.1))

literal-IsClosed : (s : String) → is_closed s ≡ true → IsClosed s
literal-IsClosed s h = apart (has_char 59 s) (has_char 10 s) (has_char 13 s) h
  where
    apart : (x y z : Bool) → not (x || y || z) ≡ true → (x ≡ false) × (y ≡ false) × (z ≡ false)
    apart x y z p = ground arith

directive-IsClosed :
    (name : String) (sources : List String)
    → IsClosed name
    → All IsClosed sources
    → IsClosed (directive name sources)
unfolding directive has_char
directive-IsClosed name sources h k =
    concat-IsClosed name (concat " " (join_with " " (unique [] sources))) h (
      concat-IsClosed " " (join_with " " (unique [] sources)) (refl, refl, refl)
        (join-IsClosed (unique [] sources) (unique-IsClosed sources [] k)))

or_none-IsClosed : (sources : List String) → All IsClosed sources → All IsClosed (or_none sources)
unfolding has_char
or_none-IsClosed [] h = ((refl, refl, refl), tt)
or_none-IsClosed (s ∷ sources) h = h

-- The sources of a key of the metadata.
domains : (key : String) (csp : Fields) → All IsClosed (or_none (safe_sources (get key csp)))
domains key csp = or_none-IsClosed (safe_sources (get key csp)) (sources-IsClosed (get key csp))

-- The directives that may name the resource domains.
resources-IsClosed :
    (own rest : List String)
    → All IsClosed own
    → All IsClosed rest
    → All IsClosed (resource_directives own rest)
unfolding has_char
resources-IsClosed own rest r k =
    let self = literal-IsClosed "'self'" refl in
    let inline = literal-IsClosed "'unsafe-inline'" refl in
    let data_uri = literal-IsClosed "data:" refl in
    let blob = literal-IsClosed "blob:" refl in
    let unsafe = "'self'" ∷ "'unsafe-inline'" ∷ own in
    let images = "'self'" ∷ "data:" ∷ "blob:" ∷ own in
    let fonts = "'self'" ∷ "data:" ∷ own in
    let workers = "'self'" ∷ "blob:" ∷ own in
    (
      directive-IsClosed "script-src" unsafe (refl, refl, refl) (self, (inline, r)),
      (
        directive-IsClosed "style-src" unsafe (refl, refl, refl) (self, (inline, r)),
        (
          directive-IsClosed "img-src" images (refl, refl, refl) (self, (data_uri, (blob, r))),
          (
            directive-IsClosed "font-src" fonts (refl, refl, refl) (self, (data_uri, r)),
            (
              directive-IsClosed "media-src" images (refl, refl, refl)
                  (self, (data_uri, (blob, r))),
              (directive-IsClosed "worker-src" workers (refl, refl, refl) (self, (blob, r)), k),
            ),
          ),
        ),
      ),
    )

-- The directives that may not.
others-IsClosed : (csp : Fields) → All IsClosed (other_directives csp)
unfolding has_char
others-IsClosed csp =
    let domain = λ (name key : String) (h : IsClosed name).
      directive-IsClosed name (or_none (safe_sources (get key csp))) h (domains key csp) in
    (
      domain "connect-src" "connectDomains" (refl, refl, refl),
      (
        domain "frame-src" "frameDomains" (refl, refl, refl),
        (
          domain "base-uri" "baseUriDomains" (refl, refl, refl),
          (
            literal-IsClosed "object-src 'none'" refl,
            (literal-IsClosed "form-action 'none'" refl, tt),
          ),
        ),
      ),
    )

pub directives-IsClosed : (csp : Fields) → All IsClosed (directives csp)
unfolding directives has_char
directives-IsClosed csp = (
  literal-IsClosed "default-src 'none'" refl,
  resources-IsClosed (safe_sources (get "resourceDomains" csp)) (other_directives csp)
      (sources-IsClosed (get "resourceDomains" csp)) (others-IsClosed csp),
)

-- The parts of "; ".join(directives) + ";" at each ";".
unfoldable pub spaced : List String → List String
spaced [] = "" ∷ []
spaced (d ∷ ds) = concat " " d ∷ spaced ds

unfoldable pub parts_of : List String → List String
parts_of [] = "" ∷ []
parts_of (d ∷ ds) = d ∷ spaced ds

join-prefix :
    (a sep d : String) (ds : List String)
    → concat a (join_with sep (d ∷ ds)) ≡ join_with sep (concat a d ∷ ds)
unfolding join_with
join-prefix a sep d [] = refl
join-prefix a sep d (e ∷ ds) = sym (concat_assoc a d (concat sep (join_with sep (e ∷ ds))))

cut :
    (ds : List String) (d : String)
    → has_char 59 d ≡ false
    → All IsClosed ds
    → split_on 59 (concat (join_with "; " (d ∷ ds)) ";") ≡ d ∷ spaced ds
unfolding split_on join_with spaced has_char
cut [] d h k = split_on-concat ";" d "" h
cut (e ∷ ds) d h k =
    let tail = join_with "; " (e ∷ ds) in
    ap (split_on 59) (
      concat_assoc d (concat "; " tail) ";"
      ∙ ap (concat d) (
          ap (λ s. concat s ";") (append.cons ";" " " tail)
          ∙ append.cons ";" (concat " " tail) ";"))
    ∙ (split_on-concat ";" d (concat (concat " " tail) ";") h
        ∙ ap (◌∷◌ d) (
            ap (λ s. split_on 59 (concat s ";")) (join-prefix " " "; " e ds)
            ∙ cut ds (concat " " e) (has_char-concat 59 " " e ∙ k.0.0) k.1))

-- Cut at each ";", the policy of any metadata is its twelve directives, each
-- but the first after one space, and an empty last part.
pub policy_closed :
    (meta : Json)
    → split_on 59 (build_mcp_app_csp meta)
      ≡ parts_of (directives (dict_or_empty (get "csp" (ui_meta meta))))
unfolding build_mcp_app_csp directives parts_of
policy_closed meta =
    let csp = dict_or_empty (get "csp" (ui_meta meta)) in
    let ds = directives-IsClosed csp in
    cut (resource_directives (safe_sources (get "resourceDomains" csp)) (other_directives csp))
      "default-src 'none'" ds.0.0 ds.1

-- ===== src/Adapter/Csp.antt =====
-- src/codex_responses_adapter/csp.py: the Content-Security-Policy of an MCP App, `build_mcp_app_csp` and
-- the helpers below it.
pub mod Closed
use litellm_gateway.Prelude.{
  ℕ, String, Bool, true, false, not, ◌&&◌, ◌||◌, List, [], ◌∷◌, ◌++◌, ◌==◌, if◌then◌else◌,
}
use litellm_gateway.Prelude.Json.{
  Json, str, arr, obj, Items, nil, cons, Fields, end, field, get, set,
}
use litellm_gateway.Prelude.Text.{concat, strip, has_char, join_with}

abbrev pub dict_or_empty : Json → Fields
dict_or_empty (obj d) = d
dict_or_empty _ = end

abbrev is_dict : Json → Bool
is_dict (obj d) = true
is_dict _ = false

-- key in d
unfoldable pub is_key : String → Fields → Bool
is_key k end = false
is_key k (field l v d) = l == k || is_key k d

-- The deprecated flat key, where the nested one is missing.
abbrev with_flat : (key flat : String) → Fields → Fields → Fields
with_flat key flat meta result =
    if not (is_key key result) && is_dict (get flat meta)
    then set key (get flat meta) result
    else result

-- _ui_meta
unfoldable pub ui_meta : Json → Fields
ui_meta (obj meta) =
    with_flat "permissions" "ui/permissions" meta
      (with_flat "csp" "ui/csp" meta (dict_or_empty (get "ui" meta)))
ui_meta _ = end

-- Not empty, and without ";" (59) and the ends of a line (10 and 13).
abbrev pub is_safe_source : String → Bool
is_safe_source s = not (s == "") && not (has_char 59 s || has_char 10 s || has_char 13 s)

unfoldable pub safe_items : Items → List String
safe_items nil = []
safe_items (cons (str s) items) =
    let rest = safe_items items in if is_safe_source (strip s) then strip s ∷ rest else rest
safe_items (cons _ items) = safe_items items

-- _safe_sources
unfoldable pub safe_sources : Json → List String
safe_sources (arr items) = safe_items items
safe_sources _ = []

-- text in seen
unfoldable pub is_seen : String → List String → Bool
is_seen text [] = false
is_seen text (s ∷ seen) = text == s || is_seen text seen

-- dict.fromkeys(sources): the first of equal texts
unfoldable pub unique : (seen sources : List String) → List String
unique seen [] = []
unique seen (s ∷ sources) =
    let again = unique seen sources in
    let rest = unique (s ∷ seen) sources in if is_seen s seen then again else s ∷ rest

-- _directive
unfoldable pub directive : String → List String → String
directive name sources = concat name (concat " " (join_with " " (unique [] sources)))

abbrev pub or_none : List String → List String
or_none [] = "'none'" ∷ []
or_none (s ∷ sources) = s ∷ sources

-- The directives that may name the resource domains, before the others.
abbrev pub resource_directives : (resource_domains others : List String) → List String
resource_directives resource_domains others =
    directive "script-src" ("'self'" ∷ "'unsafe-inline'" ∷ resource_domains)
    ∷ directive "style-src" ("'self'" ∷ "'unsafe-inline'" ∷ resource_domains)
    ∷ directive "img-src" ("'self'" ∷ "data:" ∷ "blob:" ∷ resource_domains)
    ∷ directive "font-src" ("'self'" ∷ "data:" ∷ resource_domains)
    ∷ directive "media-src" ("'self'" ∷ "data:" ∷ "blob:" ∷ resource_domains)
    ∷ directive "worker-src" ("'self'" ∷ "blob:" ∷ resource_domains)
    ∷ others

-- The other directives after the first.
abbrev pub other_directives : Fields → List String
other_directives csp =
    directive "connect-src" (or_none (safe_sources (get "connectDomains" csp)))
    ∷ directive "frame-src" (or_none (safe_sources (get "frameDomains" csp)))
    ∷ directive "base-uri" (or_none (safe_sources (get "baseUriDomains" csp)))
    ∷ "object-src 'none'"
    ∷ "form-action 'none'"
    ∷ []

unfoldable pub directives : Fields → List String
directives csp =
    "default-src 'none'"
    ∷ resource_directives (safe_sources (get "resourceDomains" csp)) (other_directives csp)

unfoldable pub build_mcp_app_csp : Json → String
build_mcp_app_csp meta =
    concat (join_with "; " (directives (dict_or_empty (get "csp" (ui_meta meta))))) ";"

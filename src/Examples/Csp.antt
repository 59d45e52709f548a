-- ===== src/Examples/Csp.antt =====
-- The policy of src/codex_responses_adapter/csp.py for metadata that tries to add a directive.
use litellm_gateway.Prelude.{String, ◌≡◌, refl, List, [], ◌∷◌}
use litellm_gateway.Prelude.Json.{Json, str, arr, obj, Items, nil, cons, end, field, get}
use litellm_gateway.Prelude.Text.{split_on}
use litellm_gateway.Adapter.Csp.{
  dict_or_empty, ui_meta, directives, build_mcp_app_csp, safe_sources, safe_items,
}
use litellm_gateway.Adapter.Csp.Closed.{parts_of, policy_closed}

abbrev sources : Items
sources =
    cons (str " https://a.example ")
      (cons (str "https://b.example; script-src *") (cons (obj end) nil))

abbrev meta : Json
meta = obj (field "ui/csp" (obj (field "connectDomains" (arr sources) end)) end)

unsafe_source_dropped : safe_sources (arr sources) ≡ "https://a.example" ∷ []
unfolding safe_sources safe_items litellm_gateway.Prelude.Text.strip
    litellm_gateway.Prelude.Text.rstrip_space litellm_gateway.Prelude.Text.lstrip
    litellm_gateway.Prelude.Text.is_space litellm_gateway.Prelude.Text.has_char
unsafe_source_dropped = refl

policy_closed_example :
    split_on 59 (build_mcp_app_csp meta)
    ≡ parts_of (directives (dict_or_empty (get "csp" (ui_meta meta))))
policy_closed_example = policy_closed meta

-- ===== src/Adapter/Calls/Ids.antt =====
-- The item of an MCP tool call of src/codex_responses_adapter/events.py carries the call's id.
use litellm_gateway.Prelude.{
  ◌≡◌, refl, ap, ◌∙◌, String, Bool, true, false, Option, none, some, List, ◌∷◌, ◌==◌, not, ◌&&◌,
  eq_iff, if◌then◌else◌, arith,
}
use litellm_gateway.Prelude.Json.{
  Json, null, bool, int, float, str, arr, obj, Fields, end, field, get, set, dict, is_null,
}
use litellm_gateway.Prelude.Raising.{Method, continue}
use litellm_gateway.Adapter.Response.{ResponseRecord, register_mcp_app_target}
use litellm_gateway.Adapter.Response.Sound.{IsSound}
use litellm_gateway.Adapter.Values.{string, or_text}
use litellm_gateway.Adapter.Calls.{
  Codec, mcp_call_item, mcp_meta, app_meta, plain_item, with_result, is_empty_dict, is_failed,
}

-- A method that returns a value of which `P` holds, and leaves the record sound.
abbrev pub Gives : {A : Type 0} → (A → Type 0) → Option A × ResponseRecord → Type 0
Gives P (none, r) = ⊥
Gives P (some a, r) = P a × IsSound r

get-set-other :
    (k l : String) (v : Json) (d : Fields) → (l == k) ≡ false → get k (set l v d) ≡ get k d
unfolding get set
get-set-other k l v end h = ground arith
get-set-other k l v (field m w d) h = ground (arith, eq_iff m l, get-set-other k l v d h)

-- A key that is set where a test holds.
get-set-when :
    (b : Bool) (k l : String) (v : Json) (d : Fields)
    → (l == k) ≡ false
    → get k (if b then set l v d else d) ≡ get k d
get-set-when true k l v d h = get-set-other k l v d h
get-set-when false k l v d h = refl

pub string-nonempty : (v : Json) (k : String) → string v ≡ some k → (k == "") ≡ false
string-nonempty (str s) k h = ground arith
string-nonempty null k h = ground arith
string-nonempty (bool b) k h = ground arith
string-nonempty (int n) k h = ground arith
string-nonempty (float m e) k h = ground arith
string-nonempty (arr xs) k h = ground arith
string-nonempty (obj d) k h = ground arith

id-dict : (v : Json) (rest : List (String × Json)) → get "id" (dict (("id", v) ∷ rest)) ≡ v
unfolding get dict
id-dict v rest = refl

id-plain_item :
    (c : Codec) (source : Fields) (completed : Bool) (call_id server tool : String)
    → get "id" (plain_item c source completed call_id server tool) ≡ str call_id
unfolding plain_item
id-plain_item c source completed call_id server tool =
    get-set-when (is_failed source) "id" "error" _ _ refl
    ∙ get-set-when (completed && not (is_null (get "result" source))) "id" "output" _ _ refl
    ∙ id-dict (str call_id) _

app_meta-Gives :
    (c : Codec) (context : Fields) (call_id server tool : String) (uri : Option String)
    (r : ResponseRecord)
    → IsSound r
    → Gives (λ _. Unit {0}) (app_meta c context call_id server tool uri r)
unfolding app_meta register_mcp_app_target
app_meta-Gives c context call_id server tool none r s = (tt, s)
app_meta-Gives c context call_id server tool (some uri) r s =
    (tt, record { usable = s.usable; indexed = s.indexed })

mcp_meta-Gives :
    (c : Codec) (source : Fields) (call_id server tool : String) (r : ResponseRecord)
    → IsSound r
    → Gives (λ _. Unit {0}) (mcp_meta c source call_id server tool r)
unfolding mcp_meta
mcp_meta-Gives c source call_id server tool r s = app_meta-Gives c _ call_id server tool _ r s

with_meta : Fields → Fields → Fields
with_meta full item = if is_empty_dict full then item else set "_meta" (obj full) item

id-with_meta : (full item : Fields) → get "id" (with_meta full item) ≡ get "id" item
unfolding with_meta
id-with_meta end item = refl
id-with_meta (field k v d) item = get-set-other "id" "_meta" _ item refl

module _ {A B : Type 0} (P : A → Type 0) (Q : B → Type 0) where
  pub Gives-continue :
      (o : Option A × ResponseRecord) (f : A → Method ResponseRecord B)
      → Gives P o
      → ((a : A) (r : ResponseRecord) → P a → IsSound r → Gives Q (f a r))
      → Gives Q (continue o.0 f o.1)
  Gives-continue (none, r) f h k = absurd h
  Gives-continue (some a, r) f h k = k a r h.0 h.1

pub mcp_call_item-Gives :
    (c : Codec) (source : Fields) (completed : Bool) (call_id : String) (r : ResponseRecord)
    → string (get "id" source) ≡ some call_id
    → IsSound r
    → Gives (λ item. get "id" item ≡ str call_id) (mcp_call_item c source completed r)
unfolding mcp_call_item with_meta
mcp_call_item-Gives c source completed call_id r e s =
    Gives-continue (λ _. Unit {0}) (λ item. get "id" item ≡ str call_id) (mcp_meta c source _ _ _ r)
      _ (mcp_meta-Gives c source _ _ _ r s)
      (λ meta t _ u. (
        id-with_meta (with_result (get "result" source) meta) _
            ∙ id-plain_item c source completed (or_text (string (get "id" source)) "mcp_unknown") _
                _
            ∙ ap (λ o. str (or_text o "mcp_unknown")) e,
        u,
      ))

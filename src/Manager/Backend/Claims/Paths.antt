-- ===== src/Manager/Backend/Claims/Paths.antt =====
-- Where a publication of src/sandbox_manager/docker_backend.py reads its file.
use Prim.Native.String.{count}
use mathlib.Core.Bool.{false≢true}
use litellm_gateway.Prelude.{
  String, ◌≡◌, refl, ap, sym, ◌∙◌, Bool, true, ◌&&◌, not, ◌∷◌, arith, leb, List, [], All, false,
}
use litellm_gateway.Prelude.Json.{Json, null, bool, int, float, arr, obj, Fields, str, get, dict}
use litellm_gateway.Prelude.Text.{concat, concat_assoc, split_on, has_char, all_chars, is_word}
use litellm_gateway.Prelude.Split.{join-split, split-concat, word_without_slash}
use litellm_gateway.Manager.Backend.Claims.{
  passed, message_id_claim, required, required_claim, all_safe, is_unsafe, safe_output_relative,
}
use mathlib.Core.Path.{subst}
use litellm_gateway.Manager.State.{one_of, Operation}
use litellm_gateway.Manager.Program.Only.{Only}
use litellm_gateway.Manager.Backend.{Environment}
use litellm_gateway.Manager.Backend.Requests.Inputs.{Request, publish_input}
use litellm_gateway.Manager.Backend.Operations.{input_dict, execute_file_operation}
use litellm_gateway.Manager.Backend.Operations.Captures.{
  IsPlain, IsInside, Captures, execute_file_operation-Only,
}
use litellm_gateway.Manager.Backend.Claims.Bounds.{
  bind-passed, then-passed, check-passed, passed_inj,
}

-- Where `_safe_output_relative` returns, it returns the value itself, and no part of it between slashes
-- is empty, "." or "..".
pub relative_path_safe :
    (value relative_path : String)
    → safe_output_relative value ≡ passed relative_path
    → (relative_path ≡ value) × (all_safe (split_on 47 value) ≡ true)
unfolding safe_output_relative
relative_path_safe value relative_path h =
    let tested = then-passed _ _ _ h in
    (
      sym (passed_inj _ relative_path tested.1) ∙ join-split value,
      middle _ _ _ (check-passed _ _ tested.0),
    )
  where
    middle : (x y z : Bool) → (x && y && z) ≡ true → y ≡ true
    middle x y z e = ground arith

message_id_word :
    (granted : Fields) (name message_id : String)
    → message_id_claim granted name ≡ passed message_id
    → (all_chars is_word message_id ≡ true)
      × (leb 1 (count message_id) ≡ true)
      × (required_claim granted name ≡ passed message_id)
unfolding message_id_claim
message_id_word granted name message_id h =
    let claimed = bind-passed _ _ _ h in
    let tested = then-passed _ _ _ claimed.2 in
    subst
      (λ s.
        (all_chars is_word s ≡ true)
        × (leb 1 (count s) ≡ true)
        × (required_claim granted name ≡ passed s))
      (passed_inj _ message_id tested.1)
      (let (word, some_char) = each _ _ _ (check-passed _ _ tested.0) in
        (word, some_char, claimed.1))
  where
    each : (x y z : Bool) → (x && y && z) ≡ true → (z ≡ true) × (x ≡ true)
    each x y z e = ground arith

part-IsPlain : (part : String) → is_unsafe part ≡ false → IsPlain part
unfolding one_of
part-IsPlain part h = (
  λ e. false≢true (sym h ∙ ap is_unsafe e),
  λ e. false≢true (sym h ∙ ap is_unsafe e),
  λ e. false≢true (sym h ∙ ap is_unsafe e),
)

parts-IsPlain : (parts : List String) → all_safe parts ≡ true → All IsPlain parts
unfolding all_safe
parts-IsPlain [] h = tt
parts-IsPlain (part ∷ parts) h =
    let (first, others) = both (is_unsafe part) (all_safe parts) h in
    (part-IsPlain part first, parts-IsPlain parts others)
  where
    both : (x y : Bool) → (not x && y) ≡ true → (x ≡ false) × (y ≡ true)
    both x y e = ground arith

id-IsPlain :
    (message_id : String)
    → all_chars is_word message_id ≡ true
    → leb 1 (count message_id) ≡ true
    → IsPlain message_id
unfolding all_chars is_word
id-IsPlain message_id h k = (
  λ e. false≢true (ap (λ s. leb 1 (count s)) (sym e) ∙ k),
  λ e. false≢true (ap (all_chars is_word) (sym e) ∙ h),
  λ e. false≢true (ap (all_chars is_word) (sym e) ∙ h),
)

required_text : (v : Json) (s : String) → required v ≡ passed s → v ≡ str s
required_text (str t) s h = ap str (passed_inj t s (then-passed _ _ _ h).1)
required_text null s h = ground arith
required_text (bool b) s h = ground arith
required_text (int n) s h = ground arith
required_text (float m e) s h = ground arith
required_text (arr xs) s h = ground arith
required_text (obj d) s h = ground arith

claim_text :
    (granted : Fields) (name s : String)
    → required_claim granted name ≡ passed s
    → get name granted ≡ str s
unfolding required_claim
claim_text granted name s h = required_text (get name granted) s h

-- Where `create_operation` stores a publication.
published_at :
    (env : Environment) (granted : Fields) (requested sandbox_id : String) (r : Request)
    → publish_input env granted requested sandbox_id ≡ passed r
    → (message_id relative_path value : String) × (message_id_claim granted "assistant_message_id"
        ≡ passed message_id)
      × (safe_output_relative value ≡ passed relative_path)
      × (get "workspace_path" (input_dict r.input)
          ≡ str (concat "outputs/" (concat message_id (concat "/" relative_path))))
unfolding publish_input get dict
published_at env granted requested sandbox_id r h =
    let h1 = bind-passed _ _ _ h in
    let h2 = bind-passed _ _ _ h1.2 in
    let h3 = then-passed _ _ _ h2.2 in
    let h4 = bind-passed _ _ _ h3.1 in
    let h5 = bind-passed _ _ _ h4.2 in
    let h6 = then-passed _ _ _ h5.2 in
    let h7 = then-passed _ _ _ h6.1 in
    let h8 = bind-passed _ _ _ h7.1 in
    (
      h1.0,
      h5.0,
      h4.0,
      h1.1,
      h5.1,
      subst
          (λ x.
            get "workspace_path" (input_dict x.input)
            ≡ str (concat "outputs/" (concat h1.0 (concat "/" h5.0))))
          (passed_inj _ r h8.2) refl,
    )

-- The path of a publication is inside.
path-IsInside :
    (granted : Fields) (message_id relative_path value : String)
    → message_id_claim granted "assistant_message_id" ≡ passed message_id
    → safe_output_relative value ≡ passed relative_path
    → IsInside message_id (concat "outputs/" (concat message_id (concat "/" relative_path)))
unfolding has_char
path-IsInside granted message_id relative_path value h k =
    let safe = relative_path_safe value relative_path k in
    let (word, some_char, claim) = message_id_word granted "assistant_message_id" message_id h in
    (
      split_on 47 value,
      ap (split_on 47) (concat_assoc "outputs" "/" (concat message_id (concat "/" relative_path)))
          ∙ (split-concat "outputs" (concat message_id (concat "/" relative_path)) refl
              ∙ ap (◌∷◌ "outputs") (
                  split-concat message_id relative_path (word_without_slash message_id word)
                  ∙ ap (λ v. message_id ∷ split_on 47 v) safe.0)),
      (id-IsPlain message_id word some_char, parts-IsPlain (split_on 47 value) safe.1),
    )

-- A request to publish that passes the checks names a message, and the task of an operation with the
-- input of that request, whatever the claims of the task and whatever is answered, has the operation
-- runner capture nothing but a path under outputs/<message id>: between slashes, its first part is
-- "outputs", its second the message id of the grant, and neither that one nor any part after it is
-- empty, "." or "..".
pub published_path_inside :
    (env : Environment) (granted : Fields) (requested sandbox_id : String) (r : Request)
    → publish_input env granted requested sandbox_id ≡ passed r
    → (o : Operation) → o.input ≡ r.input
    → (claims : Fields)
    → (message_id : String) × (get "assistant_message_id" granted ≡ str message_id)
      × Only (Captures message_id) (execute_file_operation env o claims)
published_path_inside env granted requested sandbox_id r h o e claims =
    let (message_id, relative_path, value, named, claimed, given) =
      published_at env granted requested sandbox_id r h in
    (
      message_id,
      claim_text granted "assistant_message_id" message_id
          (message_id_word granted "assistant_message_id" message_id named).2,
      execute_file_operation-Only message_id o claims
          (concat "outputs/" (concat message_id (concat "/" relative_path)))
          (ap (λ v. get "workspace_path" (input_dict v)) e ∙ given)
          (path-IsInside granted message_id relative_path value named claimed) env,
    )

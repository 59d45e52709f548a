-- ===== src/Manager/Backend/Claims.antt =====
-- src/sandbox_manager/docker_backend.py: the checks of a grant's claims, `_required_claim`,
-- `_idempotency_key`, `_message_id_claim`, `_safe_output_relative`, `_validate_transfer_url` and
-- `_checkout_artifacts`. A check raises a SandboxAuthorizationError or returns what it checked.
pub mod Bounds
pub mod Paths
use Prim.Native.String.{count}
use litellm_gateway.Prelude.{
  ℕ, zero, suc, ◌*◌, String, Bool, true, false, not, ◌&&◌, ◌||◌, Option, none, some, List, [], ◌∷◌,
  ◌==◌, if◌then◌else◌, is_some, leb,
}
use litellm_gateway.Prelude.Json.{
  Json, int, pos, str, obj, Items, Fields, get, is_null, as_list, items,
}
use litellm_gateway.Prelude.Text.{
  concat, lower, split_on, join_with, all_chars, has_char, is_word, is_hex_id, after_prefix,
}
use litellm_gateway.Manager.State.{one_of}
use litellm_gateway.Manager.Program.{authorization_error, Program, done, raises}
use litellm_gateway.Manager.Backend.{Environment}

pub data Checked (A : Type 0) : Type 0 where
  passed : A → Checked A
  denied : String → Checked A

infixl 5 ◌>>=◌
unfoldable pub ◌>>=◌ : {A B : Type 0} → Checked A → (A → Checked B) → Checked B
passed a >>= f = f a
denied text >>= f = denied text

infixl 5 ◌>>◌
unfoldable pub ◌>>◌ : {B : Type 0} → Checked (Unit {0}) → Checked B → Checked B
m >> n = m >>= λ _. n

-- if not b: raise SandboxAuthorizationError(text)
unfoldable pub check : Bool → String → Checked (Unit {0})
check true text = passed tt
check false text = denied text

abbrev pub checked : {A : Type 0} → Checked A → Program A
checked (passed a) = done a
checked (denied text) = raises (authorization_error text)

abbrev required : Json → Checked String
required (str s) =
    check (not (s == "") && leb (count s) 8192) "Operation claim is invalid" >> passed s
required _ = denied "Operation claim is invalid"

-- _required_claim
unfoldable pub required_claim : Fields → String → Checked String
required_claim claims name = required (get name claims)

abbrev key_text : String → Json → Checked String
key_text operation (str s) =
    check (not (s == "") && leb (count s) 256) "Operation idempotency_key is invalid"
    >> passed (concat operation (concat ":" s))
key_text operation _ = denied "Operation idempotency_key is invalid"

-- _idempotency_key
unfoldable pub idempotency_key : Fields → String → Checked String
idempotency_key claims operation = key_text operation (
    if is_null (get "idempotency_key" claims)
    then get "nonce" claims
    else get "idempotency_key" claims)

-- _message_id_claim: [A-Za-z0-9_-]{1,128}
unfoldable pub message_id_claim : Fields → String → Checked String
message_id_claim claims name = required_claim claims name >>= λ value.
    check (leb 1 (count value) && leb (count value) 128 && all_chars is_word value)
      "Operation claim is invalid"
    >> passed value

-- part in {"", ".", ".."}
abbrev pub is_unsafe : String → Bool
is_unsafe part = one_of part ("" ∷ "." ∷ ".." ∷ [])

unfoldable pub all_safe : List String → Bool
all_safe [] = true
all_safe (part ∷ parts) = not (is_unsafe part) && all_safe parts

-- _safe_output_relative. A value that starts with "/" has an empty part.
unfoldable pub safe_output_relative : String → Checked String
safe_output_relative value =
    check
      (not (is_some (after_prefix "/" value))
        && all_safe (split_on 47 value)
        && not (has_char 0 value))
      "Operation output_relative_path is invalid"
    >> passed (join_with "/" (split_on 47 value))

-- _validate_transfer_url
unfoldable pub validate_transfer_url : Environment → String → Checked (Unit {0})
validate_transfer_url env url =
    check
      (one_of (env.outside.scheme_of url) ("http" ∷ "https" ∷ [])
        && env.outside.has_host url
        && (url == env.settings.artifact_transfer_base_url
            || is_some (after_prefix (concat env.settings.artifact_transfer_base_url "/") url)))
      "Operation transfer_url is not allowed"

pub record Artifact : Type 0 where
  pub artifact_id : String
  pub filename : String
  pub size : ℕ
  pub sha256 : String
  pub max_bytes : ℕ
  pub url : String
  pub token : String

-- An int that is no bool and not negative.
abbrev whole : Json → String → Checked ℕ
whole (int (pos n)) text = passed n
whole _ text = denied text

abbrev pub is_filename : String → Bool
is_filename filename =
    leb (count filename) 255
    && not (one_of filename ("." ∷ ".." ∷ []))
    && not (has_char 47 filename)
    && not (has_char 92 filename)
    && not (has_char 0 filename)

-- The body of the loop of _checkout_artifacts, on a dict.
unfoldable pub check_fields :
    Environment → (identifiers filenames : List String) → Fields → Checked Artifact
check_fields env identifiers filenames raw = do
  artifact_id ← required_claim raw "artifact_id"
  filename ← required_claim raw "filename"
  sha256 ← required_claim raw "sha256"
  url ← required_claim raw "url"
  token ← required_claim raw "token"
  check (is_hex_id "artifact_" 32 artifact_id) "Operation artifact_id is invalid"
  check (is_filename filename) "Operation Artifact filename is invalid"
  check (is_hex_id "" 64 (lower sha256)) "Operation Artifact sha256 is invalid"
  size ← whole (get "size" raw) "Operation Artifact size is invalid"
  max_bytes ← whole (get "max_bytes" raw) "Operation Artifact max_bytes is invalid"
  check (leb size max_bytes && leb max_bytes (10 * 1073741824))
      "Operation Artifact max_bytes is invalid"
  check (not (one_of artifact_id identifiers || one_of filename filenames))
      "Operation Artifact ids and filenames must be unique"
  validate_transfer_url env url
  passed (record {
    artifact_id = artifact_id;
    filename = filename;
    size = size;
    sha256 = lower sha256;
    max_bytes = max_bytes;
    url = url;
    token = token;
  })

unfoldable pub check_artifact :
    Environment → (identifiers filenames : List String) → Json → Checked Artifact
check_artifact env identifiers filenames (obj raw) = check_fields env identifiers filenames raw
check_artifact env identifiers filenames _ = denied "Operation Artifact is invalid"

-- The loop, with the ids and the filenames of the items before.
unfoldable pub check_artifacts :
    Environment → (identifiers filenames : List String) → List Json → Checked (List Artifact)
check_artifacts env identifiers filenames [] = passed []
check_artifacts env identifiers filenames (raw ∷ rest) =
    check_artifact env identifiers filenames raw >>= λ artifact.
    check_artifacts env (artifact.artifact_id ∷ identifiers) (artifact.filename ∷ filenames) rest
    >>= λ artifacts. passed (artifact ∷ artifacts)

unfoldable pub at_most : {A : Type 0} → ℕ → List A → Bool
at_most n [] = true
at_most zero (x ∷ xs) = false
at_most (suc n) (x ∷ xs) = at_most n xs

abbrev checked_items : Environment → List Json → Checked (List Artifact)
checked_items env raws =
    check (at_most 32 raws) "Operation artifacts cannot contain more than 32 items"
    >> check_artifacts env [] [] raws

-- _checkout_artifacts
unfoldable pub checkout_artifacts : Environment → Json → Checked (List Artifact)
checkout_artifacts env value = of_list (as_list value)
  where
    of_list : Option Items → Checked (List Artifact)
    of_list none = denied "Operation artifacts cannot contain more than 32 items"
    of_list (some xs) = checked_items env (items xs)

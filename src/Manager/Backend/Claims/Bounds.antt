-- ===== src/Manager/Backend/Claims/Bounds.antt =====
-- What `_checkout_artifacts` of src/sandbox_manager/docker_backend.py lets through.
use mathlib.Core.Path.{subst}
use litellm_gateway.Prelude.Text.{is_hex_id}
use litellm_gateway.Prelude.{
  ℕ, zero, suc, ◌≤◌, String, ◌≡◌, refl, Bool, true, false, not, ◌&&◌, ◌||◌, List, [], ◌∷◌, ◌==◌,
  length, All, All-imp, ap, arith, leb→le,
}
use litellm_gateway.Prelude.Json.{Json, null, bool, int, float, str, arr, obj, Fields, items}
use litellm_gateway.Manager.State.{one_of}
use litellm_gateway.Manager.Backend.{Environment}
use litellm_gateway.Manager.Backend.Claims.{
  Checked, passed, denied, ◌>>=◌, ◌>>◌, check, is_filename, Artifact, check_fields, check_artifact,
  check_artifacts, at_most, checkout_artifacts,
}

module _ {A B : Type 0} where
  pub bind-passed :
      (m : Checked A) (f : A → Checked B) (b : B)
      → (m >>= f) ≡ passed b
      → (a : A) × (m ≡ passed a) × (f a ≡ passed b)
  unfolding ◌>>=◌
  bind-passed (passed a) f b h = (a, refl, h)
  bind-passed (denied text) f b h = ground arith

module _ {B : Type 0} where
  pub then-passed :
      (m : Checked (Unit {0})) (n : Checked B) (b : B)
      → (m >> n) ≡ passed b
      → (m ≡ passed tt) × (n ≡ passed b)
  unfolding ◌>>=◌ ◌>>◌
  then-passed (passed u) n b h = (refl, h)
  then-passed (denied text) n b h = ground arith

pub check-passed : (b : Bool) (text : String) → check b text ≡ passed tt → b ≡ true
unfolding check
check-passed true text h = refl
check-passed false text h = ground arith

pub passed_inj : {A : Type 0} (a b : A) → passed a ≡ passed b → a ≡ b
passed_inj a b h = ground (arith, h)

abbrev Fresh : (identifiers filenames : List String) → Artifact → Type 0
Fresh identifiers filenames a =
    (one_of a.artifact_id identifiers ≡ false) × (one_of a.filename filenames ≡ false)

-- What an accepted item is, by itself.
abbrev pub IsArtifact : Artifact → Type 0
IsArtifact a =
    (a.size ≤ a.max_bytes)
    × (a.max_bytes ≤ 10737418240)
    × (is_filename a.filename ≡ true)
    × (is_hex_id "artifact_" 32 a.artifact_id ≡ true)

abbrev Differs : Artifact → Artifact → Type 0
Differs a b = ((b.artifact_id == a.artifact_id) ≡ false) × ((b.filename == a.filename) ≡ false)

-- No two items have an id or a filename in common.
abbrev pub AreDistinct : List Artifact → Type 0
AreDistinct [] = Unit
AreDistinct (a ∷ artifacts) = All (Differs a) artifacts × AreDistinct artifacts

fresh_facts :
    (b c x y : Bool)
    → not (b || c) ≡ true
    → (x && y) ≡ true
    → (b ≡ false) × (c ≡ false) × (x ≡ true) × (y ≡ true)
fresh_facts b c x y h k = ground arith

module _ (env : Environment) where
  fields_lem :
      (identifiers filenames : List String) (raw : Fields) (a : Artifact)
      → check_fields env identifiers filenames raw ≡ passed a
      → Fresh identifiers filenames a × IsArtifact a
  unfolding check_fields
  fields_lem identifiers filenames raw a h =
      let h1 = bind-passed _ _ _ h in
      let h2 = bind-passed _ _ _ h1.2 in
      let h3 = bind-passed _ _ _ h2.2 in
      let h4 = bind-passed _ _ _ h3.2 in
      let h5 = bind-passed _ _ _ h4.2 in
      let h6 = then-passed _ _ _ h5.2 in
      let h7 = then-passed _ _ _ h6.1 in
      let h8 = then-passed _ _ _ h7.1 in
      let h9 = bind-passed _ _ _ h8.1 in
      let h10 = bind-passed _ _ _ h9.2 in
      let h11 = then-passed _ _ _ h10.2 in
      let h12 = then-passed _ _ _ h11.1 in
      let h13 = then-passed _ _ _ h12.1 in
      let facts = fresh_facts _ _ _ _ (check-passed _ _ h12.0) (check-passed _ _ h11.0) in
      subst (λ b. Fresh identifiers filenames b × IsArtifact b) (passed_inj _ a h13.1)
        (
          (facts.0, facts.1),
          (leb→le _ _ facts.2, leb→le _ _ facts.3, check-passed _ _ h7.0, check-passed _ _ h6.0),
        )

  artifact_lem :
      (identifiers filenames : List String) (raw : Json) (a : Artifact)
      → check_artifact env identifiers filenames raw ≡ passed a
      → Fresh identifiers filenames a × IsArtifact a
  unfolding check_artifact
  artifact_lem identifiers filenames (obj raw) a h = fields_lem identifiers filenames raw a h
  artifact_lem identifiers filenames null a h = ground arith
  artifact_lem identifiers filenames (bool b) a h = ground arith
  artifact_lem identifiers filenames (int n) a h = ground arith
  artifact_lem identifiers filenames (float m e) a h = ground arith
  artifact_lem identifiers filenames (str s) a h = ground arith
  artifact_lem identifiers filenames (arr xs) a h = ground arith

  later_lem :
      (identifiers filenames : List String) (a b : Artifact)
      → Fresh (a.artifact_id ∷ identifiers) (a.filename ∷ filenames) b
      → Fresh identifiers filenames b × Differs a b
  unfolding one_of
  later_lem identifiers filenames a b h = ground arith

  artifacts_lem :
      (raws : List Json) (identifiers filenames : List String) (artifacts : List Artifact)
      → check_artifacts env identifiers filenames raws ≡ passed artifacts
      → (length artifacts ≡ length raws)
        × All (Fresh identifiers filenames) artifacts
        × All IsArtifact artifacts
        × AreDistinct artifacts
  unfolding check_artifacts
  artifacts_lem [] identifiers filenames artifacts h =
      subst
        (λ xs.
          (length xs ≡ 0)
          × All (Fresh identifiers filenames) xs
          × All IsArtifact xs
          × AreDistinct xs)
        (passed_inj [] artifacts h) (refl, tt, tt, tt)
  artifacts_lem (raw ∷ raws) identifiers filenames artifacts h =
      let first = bind-passed _ _ _ h in
      let rest = bind-passed _ _ _ first.2 in
      let one = artifact_lem identifiers filenames raw first.0 first.1 in
      let others = artifacts_lem raws _ _ rest.0 rest.1 in
      subst
        (λ xs.
          (length xs ≡ suc (length raws))
          × All (Fresh identifiers filenames) xs
          × All IsArtifact xs
          × AreDistinct xs)
        (passed_inj (first.0 ∷ rest.0) artifacts rest.2)
        (
          ap suc others.0,
          (
            one.0,
            All-imp _ (Fresh identifiers filenames) rest.0
                (λ b f. (later_lem identifiers filenames first.0 b f).0) others.1,
          ),
          (one.1, others.2),
          (
            All-imp _ (Differs first.0) rest.0
                (λ b f. (later_lem identifiers filenames first.0 b f).1) others.1,
            others.3,
          ),
        )

at_most-length : {A : Type 0} (n : ℕ) (xs : List A) → at_most n xs ≡ true → length xs ≤ n
unfolding at_most
at_most-length n [] h = omega arith
at_most-length zero (x ∷ xs) h = ground arith
at_most-length (suc n) (x ∷ xs) h = omega (arith, at_most-length n xs h)

-- Where `_checkout_artifacts` returns, there are 32 items at most; each has a size that its limit
-- allows, a limit of 10 GiB at most, a filename that stays in its directory, and an id of the right
-- form; no two have an id or a filename in common.
pub checkout_bounded :
    (env : Environment) (value : Json) (artifacts : List Artifact)
    → checkout_artifacts env value ≡ passed artifacts
    → (length artifacts ≤ 32) × All IsArtifact artifacts × AreDistinct artifacts
unfolding checkout_artifacts
checkout_bounded env (arr xs) artifacts h =
    let listed = then-passed _ _ _ h in
    let each = artifacts_lem env (items xs) [] [] artifacts listed.1 in
    (
      omega (arith, each.0, at_most-length 32 (items xs) (check-passed _ _ listed.0)),
      each.2,
      each.3,
    )
checkout_bounded env null artifacts h = ground arith
checkout_bounded env (bool b) artifacts h = ground arith
checkout_bounded env (int n) artifacts h = ground arith
checkout_bounded env (float m e) artifacts h = ground arith
checkout_bounded env (str s) artifacts h = ground arith
checkout_bounded env (obj d) artifacts h = ground arith

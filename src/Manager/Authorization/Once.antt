-- ===== src/Manager/Authorization/Once.antt =====
-- A Workspace grant that authorized a request: `_authorize` of src/sandbox_manager/docker_backend.py with
-- the store of src/sandbox_manager/state.py.
use mathlib.Core.Path.{subst}
use litellm_gateway.Prelude.{
  ℕ, ◌<◌, ◌≤◌, ◌≡◌, refl, sym, ap, ◌∙◌, String, Bool, true, false, not, Option, some, List,
  if◌then◌else◌, All, All-imp, arith, inl, inr, Bool-cases, ltb, ltb→lt,
}
use litellm_gateway.Prelude.Json.{obj, Json, Fields, get}
use litellm_gateway.Manager.State.{Store, Result, ok, err}
use litellm_gateway.Manager.State.Operations.{consume_nonce}
use litellm_gateway.Manager.State.History.{Call, consumes, run_all}
use litellm_gateway.Manager.State.Replay.{Before, consume_nonce_once}
use litellm_gateway.SandboxApi.Grants.{Signing, Verified, accepted, refused, verify_grant, is_text}
use litellm_gateway.SandboxApi.Grants.Accepted.{IsLive, verify_grant-IsLive}
use litellm_gateway.Manager.Authorization.{
  Authorization, authorized, Settings, authorize, after_verifying, after_consuming, text_of,
  seconds_of, wrong_issuer, wrong_binding, bound_to,
}

-- The call of the store that an authorization makes.
abbrev consuming : Fields → ℕ → Store → Result Bool × Store
consuming q timestamp s =
    consume_nonce (text_of (get "nonce" q)) (seconds_of (get "exp" q)) timestamp s

after_consuming-ok :
    (d q : Fields) (o : Result Bool × Store)
    → (after_consuming d o).0 ≡ authorized q
    → (d ≡ q) × (o.0 ≡ ok true) × ((after_consuming d o).1 ≡ o.1)
unfolding after_consuming
after_consuming-ok d q (ok true, s) h = (ground arith, refl, refl)
after_consuming-ok d q (ok false, s) h = ground arith
after_consuming-ok d q (err e, s) h = ground arith

-- What an authorization needs of the verdict and of the store.
record IsAuthorized (timestamp : ℕ) (v : Verified) (s t : Store) (q : Fields) : Type 0 where
  verdict : v ≡ accepted q
  consumed : (consuming q timestamp s).0 ≡ ok true
  left : t ≡ (consuming q timestamp s).1

consumed-IsAuthorized :
    (timestamp : ℕ) (s : Store) (d q : Fields)
    → (after_consuming d (consuming d timestamp s)).0 ≡ authorized q
    → IsAuthorized timestamp (accepted d) s (after_consuming d (consuming d timestamp s)).1 q
consumed-IsAuthorized timestamp s d q h =
    let (same, consumed, left) = after_consuming-ok d q (consuming d timestamp s) h in
    record {
      verdict = ap accepted same;
      consumed = subst (λ x. (consuming x timestamp s).0 ≡ ok true) same consumed;
      left = left ∙ ap (λ x. (consuming x timestamp s).1) same;
    }

after_verifying-ok :
    (settings : Settings) (workspace_id : Option String) (timestamp : ℕ) (v : Verified) (s : Store)
    (q : Fields)
    → (after_verifying settings workspace_id timestamp v s).0 ≡ authorized q
    → IsAuthorized timestamp v s (after_verifying settings workspace_id timestamp v s).1 q
unfolding after_verifying
after_verifying-ok settings workspace_id timestamp (refused e) s q h = ground arith
after_verifying-ok settings workspace_id timestamp (accepted d) s q h =
    go (not (is_text settings.operation_grant_issuer (get "iss" d)))
      (not (bound_to workspace_id (get "workspace_id" d))) h
  where
    chosen : Bool → Bool → Authorization × Store
    chosen x y =
        if x
        then (wrong_issuer, s)
        else (if y then (wrong_binding, s) else after_consuming d (consuming d timestamp s))

    go :
        (x y : Bool)
        → (chosen x y).0 ≡ authorized q
        → IsAuthorized timestamp (accepted d) s (chosen x y).1 q
    go true y k = ground arith
    go false true k = ground arith
    go false false k = consumed-IsAuthorized timestamp s d q k

-- The clock of a call that consumes a nonce is not past a time.
abbrev pub Until : ℕ → Call → Type 0
Until later (consumes nonce till now) = now ≤ later
Until later _ = Unit

Until-Before : (later e : ℕ) → later < e → (call : Call) → Until later call → Before e call
Until-Before later e h (consumes nonce till now) u = omega (arith, h, u)
Until-Before later e h _ u = tt

true_not_false : ◌≡◌ {A = Result Bool} (ok true) (ok false) → ⊥
true_not_false h = ground arith

same_payload : (q q' : Fields) → ◌≡◌ {A = Option Json} (some (obj q)) (some (obj q')) → q ≡ q'
same_payload q q' h = ground arith

seconds_of-IsLive : (now : ℕ) (q : Fields) → IsLive now q → now < seconds_of (get "exp" q)
seconds_of-IsLive now q live = rw live.expires live.early

-- A second time, the nonce is consumed at the grant's end or later.
twice_late :
    (q q' : Fields) (timestamp later : ℕ) (s t : Store) (calls : List Call)
    → q ≡ q'
    → (consuming q timestamp s).0 ≡ ok true
    → t ≡ (consuming q timestamp s).1
    → All (Until later) calls
    → (consuming q' later (run_all calls t)).0 ≡ ok true
    → seconds_of (get "exp" q) ≤ later
twice_late q q' timestamp later s t calls same first left between second =
    elim (Bool-cases (ltb later (seconds_of (get "exp" q)))) [
      | inl e ↦
          let early = ltb→lt later (seconds_of (get "exp" q)) e in
          let again : (consuming q later (run_all calls (consuming q timestamp s).1)).0 ≡ ok false =
            consume_nonce_once (text_of (get "nonce" q)) (seconds_of (get "exp" q)) timestamp s
              calls (seconds_of (get "exp" q)) later first
              (All-imp (Until later) (Before (seconds_of (get "exp" q))) calls
                (Until-Before later (seconds_of (get "exp" q)) early) between)
              early in
          let claim : (consuming q later (run_all calls (consuming q timestamp s).1)).0 ≡ ok true =
            subst (λ x. (consuming q later (run_all calls x)).0 ≡ ok true) left
              (subst (λ x. (consuming x later (run_all calls t)).0 ≡ ok true) (sym same) second) in
          elim (true_not_false (sym claim ∙ again)) [ ]
      | inr e ↦ ground arith
    ]

-- A grant whose token authorized a request authorizes another one only across its end: for any
-- operation and Workspace, after any calls of the store, the second request must have checked the times
-- of the grant before its `exp`, and consumed its nonce at `exp` or later. The calls between that
-- consume nonces read the clock no later than the second request does.
pub authorized_again_at_expiry :
    (signing : Signing) (settings : Settings) (token : String)
    (operation workspace_id : Option String) (current timestamp : ℕ) (s : Store) (q : Fields)
    → (authorize signing settings token operation workspace_id current timestamp s).0 ≡ authorized q
    → (calls : List Call) (operation' workspace_id' : Option String) (current' timestamp' : ℕ)
    → All (Until timestamp') calls
    → (q' : Fields)
    → (authorize signing settings token operation' workspace_id' current' timestamp' (
        run_all calls
          (authorize signing settings token operation workspace_id current timestamp s).1)).0
      ≡ authorized q'
    → (current' < seconds_of (get "exp" q)) × (seconds_of (get "exp" q) ≤ timestamp')
unfolding authorize
authorized_again_at_expiry signing settings token operation workspace_id current timestamp s q first
      calls operation' workspace_id' current' timestamp' between q' second =
    let verdict : Option String → ℕ → Verified = λ o now.
      verify_grant signing token settings.operation_signing_secret "sandbox-manager" o now 900 in
    let t = (authorize signing settings token operation workspace_id current timestamp s).1 in
    let a =
      after_verifying-ok settings workspace_id timestamp (verdict operation current) s q first in
    let b =
      after_verifying-ok settings workspace_id' timestamp' (verdict operation' current')
        (run_all calls t) q' second in
    let (carried, live) =
      verify_grant-IsLive signing settings.operation_signing_secret "sandbox-manager" operation
        current 900 token q a.verdict in
    let (carried', live') =
      verify_grant-IsLive signing settings.operation_signing_secret "sandbox-manager" operation'
        current' 900 token q' b.verdict in
    let same = same_payload q q' (sym carried ∙ carried') in
    (
      subst (λ x. current' < seconds_of (get "exp" x)) (sym same)
          (seconds_of-IsLive current' q' live'),
      twice_late q q' timestamp timestamp' s t calls same a.consumed a.left between b.consumed,
    )

-- ===== src/Adapter/Builder/Histories.antt =====
-- Whole lives of a `ResponsesEventBuilder` (src/codex_responses_adapter/events.py).
use litellm_gateway.Prelude.{
  ◌≡◌, refl, String, Option, none, some, List, [], ◌∷◌, ◌++◌, if◌then◌else◌, arith,
}
use litellm_gateway.Prelude.Json.{Fields}
use litellm_gateway.Prelude.Raising.{continue, ◌>>=◌, pure}
use litellm_gateway.Adapter.Response.{ResponseRecord}
use litellm_gateway.Adapter.Response.Sound.{IsSound}
use litellm_gateway.Adapter.Calls.{Codec}
use litellm_gateway.Adapter.Builder.{Event, Builder, Emit, start, no_events, ◌⊕◌}
use litellm_gateway.Adapter.Builder.Messages.{initial_events}
use litellm_gateway.Adapter.Builder.Turns.{consume, fail, incomplete}
use litellm_gateway.Adapter.Builder.Runs.{
  Numbered, endings, Follows, Follows-append, Outcome, no_events-Runs,
}
use litellm_gateway.Adapter.Builder.Steps.{initial_events-Runs}
use litellm_gateway.Adapter.Builder.Endings.{
  Returns, Runs-Returns, fail-Returns, incomplete-Returns, consume-Returns,
}

-- The calls that the service makes of a builder.
pub data Call : Type 0 where
  begins : Call
  consumes : Fields → Call
  fails : String → Call
  interrupts : String → Call

module _ (c : Codec) where
  abbrev pub perform : Call → Emit
  perform begins = initial_events
  perform (consumes notification) = consume c notification
  perform (fails message) = fail message
  perform (interrupts reason) = incomplete reason

  unfoldable pub perform_all : List Call → Emit
  perform_all [] = no_events
  perform_all (call ∷ rest) = perform call ⊕ perform_all rest

⊕-Returns : (m n : Emit) → Returns m → Returns n → Returns (m ⊕ n)
unfolding ◌⊕◌
⊕-Returns m n h k b s = first b (m b) (h b s)
  where
    second :
        (b t : Builder) (es : List Event) (o : Option (List Event) × Builder)
        → Follows b es t
        → Outcome t o
        → Outcome b (continue o.0 (λ more. pure (es ++ more)) o.1)
    second b t es (none, u) f g = g
    second b t es (some fs, u) f g = (Follows-append b t u es fs f g.0, g.1)

    first :
        (b : Builder) (o : Option (List Event) × Builder)
        → Outcome b o
        → Outcome b (continue o.0 (λ es. n >>= λ more. pure (es ++ more)) o.1)
    first b (none, t) g = g
    first b (some es, t) g = second b t es (n t) g.0 (k t g.1)

perform-Returns : (c : Codec) (call : Call) → Returns (perform c call)
perform-Returns c begins = Runs-Returns _ initial_events-Runs
perform-Returns c (consumes notification) = consume-Returns c notification
perform-Returns c (fails message) = fail-Returns message
perform-Returns c (interrupts reason) = incomplete-Returns reason

perform_all-Returns : (c : Codec) (calls : List Call) → Returns (perform_all c calls)
unfolding perform_all
perform_all-Returns c [] = Runs-Returns _ no_events-Runs
perform_all-Returns c (call ∷ rest) =
    ⊕-Returns _ _ (perform-Returns c call) (perform_all-Returns c rest)

-- What a run returns.
abbrev pub HasRun : (Codec) → List Call → ResponseRecord → List Event → Builder → Type 0
HasRun c calls r es t = perform_all c calls (start r) ≡ (some es, t)

returned :
    (b : Builder) (o : Option (List Event) × Builder)
    → Outcome b o
    → (es : List Event) × (t : Builder) × (o ≡ (some es, t)) × Follows b es t × IsSound t.response
returned b (none, t) h = absurd h
returned b (some es, t) h = (es, t, refl, h.0, h.1)

-- The calls return: events that are numbered on from 0, and a sound record.
abbrev pub RunsNumbered : Codec → List Call → ResponseRecord → Type 0
RunsNumbered c calls r =
    (es : List Event) × (t : Builder) × HasRun c calls r es t × Numbered 0 es × IsSound t.response

-- The calls return, with one terminal event if the builder is terminal afterwards and none if not.
abbrev pub RunsEndedOnce : Codec → List Call → ResponseRecord → Type 0
RunsEndedOnce c calls r =
    (es : List Event) × (t : Builder) × HasRun c calls r es t
    × (endings es ≡ (if t.terminal then 1 else 0))

-- From a sound record, any calls of a builder in any order return and never raise, their events are
-- numbered from 0 without a gap, and the record that they leave is sound: every index names the item
-- of its id.
pub events_numbered :
    (c : Codec) (calls : List Call) (r : ResponseRecord) → IsSound r → RunsNumbered c calls r
events_numbered c calls r s =
    let (es, t, run, follows, sound) =
      returned (start r) _ (perform_all-Returns c calls (start r) s) in
    (es, t, run, follows.numbered, sound)

-- From a sound record, any calls of a builder in any order return, and their events hold exactly one
-- terminal event (response.completed, response.incomplete or response.failed) if the builder is
-- terminal afterwards, and none if it is not.
pub ended_once :
    (c : Codec) (calls : List Call) (r : ResponseRecord) → IsSound r → RunsEndedOnce c calls r
ended_once c calls r s =
    let (es, t, run, follows, sound) =
      returned (start r) _ (perform_all-Returns c calls (start r) s) in
    (es, t, run, omega (arith, follows.ends))
